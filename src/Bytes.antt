-- ===== src/Bytes.antt =====
-- Python's `bytes` and the little-endian integer codes of its `struct` module. A byte string is a
-- list of numbers; `IsBytes` says that each of them is below 256.
pub mod Signed
pub mod Struct
use open_sprite_runtime.Prelude.{
  ℕ, zero, suc, ◌+◌, ◌-◌, ◌*◌, ◌/◌, ◌%◌, ◌≤◌, ◌<◌, ◌≡◌, refl, ap, Bool, true, false, ◌&&◌, List, [],
  ◌∷◌, ◌++◌, ltb, leb, ◌==◌, if◌then◌else◌, length, take, drop, All, arith,
}
use open_sprite_runtime.Prelude.Int.{ℤ, pos, negsuc}
use open_sprite_runtime.Prelude.Result.{Result, ok, err, struct_error}

abbrev pub Bytes : Type 0
Bytes = List ℕ

abbrev pub IsBytes : Bytes → Type 0
IsBytes = All (λ b. b < 256)

-- 256 to the power of a width in bytes.
abbrev pub span : ℕ → ℕ
span zero = 1
span (suc k) = 256 * span k

-- The low `k` bytes of a number, the lowest first.
unfoldable pub le_bytes : ℕ → ℕ → Bytes
le_bytes zero v = []
le_bytes (suc k) v = v % 256 ∷ le_bytes k (v / 256)

unfoldable pub le_value : Bytes → ℕ
le_value [] = 0
le_value (b ∷ bs) = b + 256 * le_value bs

-- A byte string equals a literal.
abbrev pub bytes_eq : Bytes → Bytes → Bool
bytes_eq [] [] = true
bytes_eq (x ∷ xs) (y ∷ ys) = x == y && bytes_eq xs ys
bytes_eq _ _ = false

pub length-le_bytes : (k v : ℕ) → length (le_bytes k v) ≡ k
unfolding le_bytes
length-le_bytes zero v = refl
length-le_bytes (suc k) v = ap suc (length-le_bytes k (v / 256))

pub le_bytes-IsBytes : (k v : ℕ) → IsBytes (le_bytes k v)
unfolding le_bytes
le_bytes-IsBytes zero v = tt
le_bytes-IsBytes (suc k) v = (omega arith, le_bytes-IsBytes k (v / 256))

pub le_value-lt : (bs : Bytes) → IsBytes bs → le_value bs < span (length bs)
unfolding le_value
le_value-lt [] h = omega arith
le_value-lt (b ∷ bs) h = omega (arith, le_value-lt bs h.1)

pub le_value-le_bytes : (k v : ℕ) → v < span k → le_value (le_bytes k v) ≡ v
unfolding le_value le_bytes
le_value-le_bytes zero v h = omega arith
le_value-le_bytes (suc k) v h = omega (arith, le_value-le_bytes k (v / 256) (omega arith))

pub le_bytes-le_value : (bs : Bytes) → IsBytes bs → le_bytes (length bs) (le_value bs) ≡ bs
unfolding le_value le_bytes
le_bytes-le_value [] h = refl
le_bytes-le_value (b ∷ bs) h =
    ground
      (arith, le_bytes-le_value bs h.1, ap (le_bytes (length bs)) (tail_of b (le_value bs) h.0))
  where
    tail_of : (b v : ℕ) → b < 256 → (b + 256 * v) / 256 ≡ v
    tail_of b v h = omega arith

pub take-IsBytes : (n : ℕ) (bs : Bytes) → IsBytes bs → IsBytes (take n bs)
take-IsBytes zero bs h = tt
take-IsBytes (suc n) [] h = tt
take-IsBytes (suc n) (b ∷ bs) h = (h.0, take-IsBytes n bs h.1)

pub drop-IsBytes : (n : ℕ) (bs : Bytes) → IsBytes bs → IsBytes (drop n bs)
drop-IsBytes zero bs h = h
drop-IsBytes (suc n) [] h = tt
drop-IsBytes (suc n) (b ∷ bs) h = drop-IsBytes n bs h.1

pub bytes_eq-eq : (xs ys : Bytes) → bytes_eq xs ys ≡ true → xs ≡ ys
bytes_eq-eq [] [] h = refl
bytes_eq-eq (x ∷ xs) (y ∷ ys) h = ground (arith, bytes_eq-eq xs ys)
bytes_eq-eq [] (y ∷ ys) h = ground arith
bytes_eq-eq (x ∷ xs) [] h = ground arith

-- `struct`'s `H`, `I` and `Q`: an unsigned field of `k` bytes, refused outside its range.
unfoldable pub pack_unsigned : ℕ → ℤ → Result Bytes
pack_unsigned k (pos n) = if ltb n (span k) then ok (le_bytes k n) else err struct_error
pack_unsigned k (negsuc n) = err struct_error

-- `struct`'s `h` and `q`: a field of `k` bytes in two's complement.
unfoldable pub pack_signed : ℕ → ℤ → Result Bytes
pack_signed k (pos n) = if ltb (2 * n) (span k) then ok (le_bytes k n) else err struct_error
pack_signed k (negsuc n) =
    if ltb (2 * n) (span k) then ok (le_bytes k (span k - (n + 1))) else err struct_error

-- The integer that a word of `k` bytes stands for in two's complement.
unfoldable pub signed_value : ℕ → ℕ → ℤ
signed_value k w = if ltb (2 * w) (span k) then pos w else negsuc (span k - w - 1)

-- The integers that a signed field of `k` bytes holds.
abbrev pub FitsSigned : ℕ → ℤ → Type 0
FitsSigned k (pos n) = 2 * n < span k
FitsSigned k (negsuc n) = 2 * n < span k

-- The word in which a signed field of `k` bytes is stored.
unfoldable pub signed_word : ℕ → ℤ → ℕ
signed_word k (pos n) = n
signed_word k (negsuc n) = span k - (n + 1)
