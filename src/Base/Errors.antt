-- ===== src/Base/Errors.antt =====
-- What a function that may raise returns: a value, or the exception that leaves it.
use Prim.Native.String.{String}
use mathlib.Core.Path.{◌≡◌, refl}
use mathlib.Core.Bool.{Bool, true, false}
use mathlib.Core.Option.{Option}
use mathlib.Core.List.{List, ◌∷◌}

-- One constructor for each exception class, with the stable code and the optional detail.
pub data Error : Type 0 where
  write_policy : String → Option String → Error
  refute_policy : String → Option String → Error
  checkpoint_policy : String → Option String → Error
  transaction : String → Error
  temporal : String → Error
  subject_ref : String → Error
  store : String → Error
  integrity : String → Error
  concurrent_update : Error
  revision_walk : Error
  value_error : String → Error
  type_error : Error
  key_error : Error
  stop_iteration : Error

pub data Result {ℓ} (A : Type ℓ) : Type ℓ where
  err : Error → Result A
  ok : A → Result A

infixl 5 ◌>>=◌ ◌>>◌
abbrev pub ◌>>=◌ {ℓ κ} : {A : Type ℓ} {B : Type κ} → Result A → (A → Result B) → Result B
err error >>= next = err error
ok value >>= next = next value

abbrev pub ◌>>◌ {ℓ} : {B : Type ℓ} → Result (Unit {0}) → Result B → Result B
check >> next = check >>= λ passed. next

-- `if test: raise error`
abbrev pub raise_if : Bool → Error → Result (Unit {0})
raise_if true e = err e
raise_if false e = ok tt

abbrev pub result_map {ℓ κ} : {A : Type ℓ} {B : Type κ} → (A → B) → Result A → Result B
result_map f (err e) = err e
result_map f (ok a) = ok (f a)

pub ok_inj {ℓ} : {A : Type ℓ} {a b : A} → ok a ≡ ok b → a ≡ b
ok_inj h = cc

-- Inversion of a successful chain.
module _ {ℓ κ} {A : Type ℓ} {B : Type κ} where
  pub >>=-eq-ok :
      {b : B} (m : Result A) (next : A → Result B)
      → (m >>= next) ≡ ok b
      → (value : A) × (next value ≡ ok b) × (m ≡ ok value)
  >>=-eq-ok (err error) next h = cc
  >>=-eq-ok (ok value) next h = (value, h, refl)

module _ {ℓ} {B : Type ℓ} where
  -- A guard that was passed.
  pub raise_if-eq-ok :
      (t : Bool) (e : Error) (k : Result B) {b : B}
      → (raise_if t e >> k) ≡ ok b
      → (t ≡ false) × (k ≡ ok b)
  raise_if-eq-ok true e k h = cc
  raise_if-eq-ok false e k h = (refl, h)

  pub >>-eq-ok :
      (m : Result (Unit {0})) (k : Result B) {b : B} → (m >> k) ≡ ok b → (m ≡ ok tt) × (k ≡ ok b)
  >>-eq-ok (ok tt) k h = (refl, h)
  >>-eq-ok (err e) k h = cc

-- A list is built element by element, each of them computed first.
module _ {ℓ} {A : Type ℓ} where
  abbrev pub cons_results : Result A → Result (List A) → Result (List A)
  cons_results m ms = m >>= λ a. ms >>= λ as_. ok (a ∷ as_)

  pub cons_results-eq-ok :
      (m : Result A) (ms : Result (List A)) {l : List A}
      → cons_results m ms ≡ ok l
      → (a : A) × (rest : List A) × (m ≡ ok a) × (ms ≡ ok rest) × (l ≡ a ∷ rest)
  cons_results-eq-ok (err e) ms h = cc
  cons_results-eq-ok (ok a) (err e) h = cc
  cons_results-eq-ok (ok a) (ok rest) h = (a, rest, refl, refl, cc)

  abbrev pub cons_result : A → Result (List A) → Result (List A)
  cons_result a ms = ms >>= λ as_. ok (a ∷ as_)

  pub cons_result-eq-ok :
      (a : A) (ms : Result (List A)) {l : List A}
      → cons_result a ms ≡ ok l
      → (rest : List A) × (ms ≡ ok rest) × (l ≡ a ∷ rest)
  cons_result-eq-ok a (err e) h = cc
  cons_result-eq-ok a (ok rest) h = (rest, refl, cc)
