-- ===== src/Ipc/Hash.antt =====
-- The ordered-name hash: FNV-1a over an encoding of the name list that is never ambiguous.
use open_sprite_runtime.Prelude.{
  ℕ, ◌<◌, ◌≡◌, ◌↔◌, refl, sym, ap, ap₂, ◌∙◌, true, not, ◌&&◌, List, [], ◌∷◌, ◌++◌, append_assoc,
  ltb, ◌==◌, length, all, &&-true, ==_iff, arith,
}
use open_sprite_runtime.Prelude.Result.{ok, require-eq-ok, ok_injective}
use open_sprite_runtime.Bytes.{Bytes}
use open_sprite_runtime.Ipc.{
  fnv_offset, fnv_byte, fnv, is_ipc_name, distinct, hash_names, ordered_name_hash, joint_count,
}

-- The names one after the other, each closed by a NUL.
pub terminated : List Bytes → Bytes
terminated [] = []
terminated (name ∷ names) = name ++ (0 ∷ terminated names)

fnv-append : (h : ℕ) (xs ys : Bytes) → fnv h (xs ++ ys) ≡ fnv (fnv h xs) ys
unfolding fnv
fnv-append h [] ys = refl
fnv-append h (x ∷ xs) ys = fnv-append (fnv_byte h x) xs ys

abbrev pub AreNames : List Bytes → Type 0
AreNames names = all is_ipc_name names ≡ true

hash_names_lem :
    (h : ℕ) (names : List Bytes)
    → AreNames names
    → hash_names h names ≡ ok (fnv h (terminated names))
unfolding hash_names terminated fnv
hash_names_lem h [] v = refl
hash_names_lem h (name ∷ names) v =
    let (good, rest) = &&-true (is_ipc_name name) (all is_ipc_name names) v in
    rw good (
      hash_names_lem (fnv h (name ++ 0 ∷ [])) names rest
      ∙ ap ok (
          sym (fnv-append h (name ++ 0 ∷ []) (terminated names))
          ∙ ap (fnv h) (append_assoc name (0 ∷ []) (terminated names))))

hash_names-eq-ok : (h : ℕ) (names : List Bytes) {r : ℕ} → hash_names h names ≡ ok r → AreNames names
unfolding hash_names
hash_names-eq-ok h [] e = refl
hash_names-eq-ok h (name ∷ names) e =
    let (good, rest) = require-eq-ok (is_ipc_name name) _ _ e in
    rw good (hash_names-eq-ok (fnv h (name ++ 0 ∷ [])) names rest)

-- A list that may be hashed: 31 names, all distinct, none empty and none with a NUL.
pub record IsNameList (names : List Bytes) : Type 0 where
  pub count : length names ≡ 31
  pub unique : distinct names ≡ true
  pub valid : AreNames names

fnv-lt : (h : ℕ) (bs : Bytes) → h < 0x1_0000_0000_0000_0000 → fnv h bs < 0x1_0000_0000_0000_0000
unfolding fnv
fnv-lt h [] lt = lt
fnv-lt h (b ∷ bs) lt = fnv-lt (fnv_byte h b) bs (fnv_byte-lt h b)
  where
    fnv_byte-lt : (h b : ℕ) → fnv_byte h b < 0x1_0000_0000_0000_0000
    fnv_byte-lt h b = omega arith

-- The hash is computed exactly for the lists of 31 distinct, non-empty names without NUL; it is
-- then FNV-1a over the names, each closed by a NUL, and fits 64 bits.
pub ordered_name_hash_iff :
    (names : List Bytes) (h : ℕ)
    → (ordered_name_hash names ≡ ok h)
      ↔ (IsNameList names × (h ≡ fnv fnv_offset (terminated names)) × (h < 0x1_0000_0000_0000_0000))
unfolding ordered_name_hash
ordered_name_hash_iff names h = (forward, backward)
  where
    forward :
        ordered_name_hash names ≡ ok h
        → IsNameList names × (h ≡ fnv fnv_offset (terminated names)) × (h < 0x1_0000_0000_0000_0000)
    forward e =
        let (tests, rest) =
          require-eq-ok (length names == joint_count && distinct names) _
            (hash_names fnv_offset names) e in
        let (n, u) = &&-true (length names == joint_count) (distinct names) tests in
        let v = hash_names-eq-ok fnv_offset names rest in
        let same = ok_injective (sym rest ∙ hash_names_lem fnv_offset names v) in
        (
          record { count = (==_iff (length names) 31).0 n; unique = u; valid = v },
          same,
          rw same (fnv-lt fnv_offset (terminated names) (omega arith)),
        )

    backward :
        IsNameList names × (h ≡ fnv fnv_offset (terminated names)) × (h < 0x1_0000_0000_0000_0000)
        → ordered_name_hash names ≡ ok h
    backward (v, same, fits) =
        rw ((==_iff (length names) 31).1 v.count, v.unique)
          (hash_names_lem fnv_offset names v.valid ∙ ap ok (sym same))

-- The first name and the rest can be told apart in the encoding.
cut :
    (xs ys us vs : Bytes)
    → all (λ b. not (b == 0)) xs ≡ true
    → all (λ b. not (b == 0)) ys ≡ true
    → xs ++ (0 ∷ us) ≡ ys ++ (0 ∷ vs)
    → (xs ≡ ys) × (us ≡ vs)
cut [] [] us vs hx hy e = (refl, cc)
cut [] (y ∷ ys) us vs hx hy e = absurd (ground arith)
cut (x ∷ xs) [] us vs hx hy e = absurd (ground arith)
cut (x ∷ xs) (y ∷ ys) us vs hx hy e =
    let (_, px) = &&-true (not (x == 0)) (all (λ b. not (b == 0)) xs) hx in
    let (_, py) = &&-true (not (y == 0)) (all (λ b. not (b == 0)) ys) hy in
    let (same, rest) = cut xs ys us vs px py (cc) in (cc, rest)

-- Different lists of names are hashed over different bytes: the closing NULs keep the names apart.
pub terminated-injective :
    (xs ys : List Bytes) → AreNames xs → AreNames ys → terminated xs ≡ terminated ys → xs ≡ ys
unfolding terminated
terminated-injective [] [] hx hy e = refl
terminated-injective [] ([] ∷ ys) hx hy e = absurd (ground arith)
terminated-injective [] ((b ∷ y) ∷ ys) hx hy e = absurd (ground arith)
terminated-injective ([] ∷ xs) [] hx hy e = absurd (ground arith)
terminated-injective ((b ∷ x) ∷ xs) [] hx hy e = absurd (ground arith)
terminated-injective (x ∷ xs) (y ∷ ys) hx hy e =
    let (gx, px) = &&-true (is_ipc_name x) (all is_ipc_name xs) hx in
    let (gy, py) = &&-true (is_ipc_name y) (all is_ipc_name ys) hy in
    let (_, nx) = &&-true (ltb 0 (length x)) (all (λ b. not (b == 0)) x) gx in
    let (_, ny) = &&-true (ltb 0 (length y)) (all (λ b. not (b == 0)) y) gy in
    let (same, rest) = cut x y (terminated xs) (terminated ys) nx ny e in
    ap₂ ◌∷◌ same (terminated-injective xs ys px py rest)
