-- ===== src/Prelude/Result.antt =====
-- Python's exceptions as values. A message is its constant part: what an f-string interpolates is
-- left out.
use Prim.Native.String.{String}
use mathlib.Core.Path.{◌≡◌, refl}
use mathlib.Core.Bool.{Bool, true, false}
use mathlib.Core.List.{List, [], ◌∷◌}

pub data Exception : Type 0 where
  value_error : String → Exception
  runtime_error : String → Exception
  type_error : String → Exception
  key_error : String → Exception
  struct_error : Exception
  overflow_error : Exception
  os_error : Exception
  socket_can_timestamp_error : String → Exception

-- What a call raises or returns.
pub data Result {ℓ} (A : Type ℓ) : Type ℓ where
  err : Exception → Result A
  ok : A → Result A

pub ok_injective {ℓ} : {A : Type ℓ} {a b : A} → ok a ≡ ok b → a ≡ b
ok_injective h = cc

-- `if b: raise x`
abbrev pub raise_if : Bool → Exception → Result (Unit {0})
raise_if false x = ok tt
raise_if true x = err x

pub raise_if-false : (b : Bool) (x : Exception) {u : Unit {0}} → raise_if b x ≡ ok u → b ≡ false
raise_if-false true x h = cc
raise_if-false false x h = refl

-- `if not b: raise x`
abbrev pub require : Bool → Exception → Result (Unit {0})
require false x = err x
require true x = ok tt

pub require-true : (c : Bool) (x : Exception) {u : Unit {0}} → require c x ≡ ok u → c ≡ true
require-true true x h = refl
require-true false x h = cc

infixl 5 ◌>>=◌ ◌>>◌
-- A statement and what follows it: an exception skips the rest.
abbrev pub ◌>>=◌ {κ μ} : {A : Type κ} {B : Type μ} → Result A → (A → Result B) → Result B
err x >>= rest = err x
ok value >>= rest = rest value

abbrev pub ◌>>◌ {κ} : {B : Type κ} → Result (Unit {0}) → Result B → Result B
check >> rest = check >>= λ done. rest

-- Checks, one after the other.
abbrev pub in_turn : List (Result (Unit {0})) → Result (Unit {0})
in_turn [] = ok tt
in_turn (check ∷ rest) = check >> in_turn rest

-- A sequence that returned has run all its statements.
pub >>=-eq-ok {κ μ} :
    {A : Type κ} {B : Type μ} (first : Result A) (rest : A → Result B) {b : B}
    → (first >>= rest) ≡ ok b
    → (value : A) × (first ≡ ok value) × (rest value ≡ ok b)
>>=-eq-ok (err x) rest h = cc
>>=-eq-ok (ok value) rest h = (value, refl, h)

pub require-eq-ok {ℓ} :
    {B : Type ℓ} (c : Bool) (x : Exception) (rest : Result B) {b : B}
    → (require c x >> rest) ≡ ok b
    → (c ≡ true) × (rest ≡ ok b)
require-eq-ok true x rest h = (refl, h)
require-eq-ok false x rest h = cc

pub raise_if-eq-ok {ℓ} :
    {B : Type ℓ} (c : Bool) (x : Exception) (rest : Result B) {b : B}
    → (raise_if c x >> rest) ≡ ok b
    → (c ≡ false) × (rest ≡ ok b)
raise_if-eq-ok true x rest h = cc
raise_if-eq-ok false x rest h = (refl, h)
