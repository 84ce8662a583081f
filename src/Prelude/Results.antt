-- ===== src/Prelude/Results.antt =====
-- Python code that may raise: a value, or the exception that ends the run.
use mathlib.Core.Path.{◌≡◌, refl, subst}
use mathlib.Core.List.{List, [], ◌∷◌}
use sieve.Prelude.Tests.{if◌then◌else◌}
use mathlib.Core.Bool.{Bool, true, false}
use mathlib.Core.Option.{Option, none, some}

pub data Error : Type 0 where
  assertion_error key_error index_error value_error type_error attribute_error : Error

pub data Result {ℓ} (A : Type ℓ) : Type ℓ where
  ok : A → Result A
  err : Error → Result A

-- What follows runs on the value; an exception ends the run.
infixl 5 ◌>>=◌
abbrev pub ◌>>=◌ {ℓ κ} : {A : Type ℓ} {B : Type κ} → Result A → (A → Result B) → Result B
err x >>= next = err x
ok a >>= next = next a

-- A value that may be missing, and the exception if it is.
abbrev pub from_option {ℓ} : {A : Type ℓ} → Error → Option A → Result A
from_option e none = err e
from_option e (some a) = ok a

pub from_option-ok {ℓ} :
    {A : Type ℓ} (e : Error) (o : Option A) {a : A} → from_option e o ≡ ok a → o ≡ some a
from_option-ok e none h = cc
from_option-ok e (some a) h = cc

-- `assert test`
abbrev pub check : Bool → Result (Unit {0})
check true = ok tt
check false = err assertion_error

-- A statement whose value is not used.
infixl 5 ◌>>◌
abbrev pub ◌>>◌ {ℓ} : {B : Type ℓ} → Result (Unit {0}) → Result B → Result B
ran >> rest = ran >>= λ done. rest

-- A sequence that returns has a first step that returns.
pub >>=-eq-ok {ℓ κ} :
    {A : Type ℓ} {B : Type κ} (first : Result A) (next : A → Result B) {value : B}
    → (first >>= next) ≡ ok value
    → (a : A) × (first ≡ ok a) × (next a ≡ ok value)
>>=-eq-ok (err x) next e = cc
>>=-eq-ok (ok a) next e = (a, refl, e)

pub ok_inj {ℓ} : {A : Type ℓ} {a b : A} → ◌≡◌ {A = Result A} (ok a) (ok b) → a ≡ b
ok_inj e = cc

-- What holds of the value, if the code returns one.
abbrev pub Ensures {ℓ κ} : {A : Type ℓ} → (A → Type κ) → Result A → Type κ
Ensures P (ok a) = P a
Ensures P (err e) = Unit

pub Ensures-ok {ℓ κ} :
    {A : Type ℓ} (P : A → Type κ) (r : Result A) {a : A} → Ensures P r → r ≡ ok a → P a
Ensures-ok P (ok a) {a = b} h e = subst P (ok_inj e) h
Ensures-ok P (err x) h e = cc

pub Ensures-bind {ℓ κ μ} :
    {A : Type ℓ} {B : Type κ} (P : B → Type μ) (m : Result A) (f : A → Result B)
    → ((a : A) → m ≡ ok a → Ensures P (f a))
    → Ensures P (m >>= f)
Ensures-bind P (ok a) f h = h a refl
Ensures-bind P (err e) f h = tt

pub Ensures-map {ℓ κ μ} :
    {A : Type ℓ} (P : A → Type κ) (Q : A → Type μ) (r : Result A)
    → ((a : A) → P a → Q a)
    → Ensures P r
    → Ensures Q r
Ensures-map P Q (ok a) h p = h a p
Ensures-map P Q (err e) h p = tt

pub Ensures-check {ℓ κ} :
    {B : Type ℓ} (P : B → Type κ) (b : Bool) (k : Result B)
    → (b ≡ true → Ensures P k)
    → Ensures P (check b >> k)
Ensures-check P true k h = h refl
Ensures-check P false k h = tt

-- The elements that pass a test which may raise, in their order.
unfoldable pub filter_result {ℓ} : {A : Type ℓ} → (A → Result Bool) → List A → Result (List A)
filter_result f [] = ok []
filter_result f (x ∷ xs) = do
  keep ← f x
  rest ← filter_result f xs
  ok (if keep then x ∷ rest else rest)

-- The results of a function that may raise, in order.
unfoldable pub map_result {ℓ κ} :
    {A : Type ℓ} {B : Type κ} → (A → Result B) → List A → Result (List B)
map_result f [] = ok []
map_result f (x ∷ xs) = do y ← f x; ys ← map_result f xs; ok (y ∷ ys)
