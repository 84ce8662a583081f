-- ===== src/Prelude/Lists.antt =====
-- Lists measured by native numbers, and the membership tests that Python writes `in`.
use Prim.Native.Nat.{ℕ, zero, suc, ◌+◌}
use Prim.Native.String.{String}
use mathlib.Core.Path.{◌≡◌, refl, ap}
use mathlib.Core.Logic.{◌⊎◌}
use mathlib.Core.Bool.{Bool, false, ◌||◌}
use mathlib.Core.List.{List, [], ◌∷◌, ◌++◌}
use mathlib.Core.Option.{Option, none, some}
use native.Mathlib.Omega.{arith}
use text.Mathlib.Text.{◌==◌}
use sieve.Prelude.Tests.{if◌then◌else◌}

module _ {ℓ} {A : Type ℓ} where
  abbrev pub length : List A → ℕ
  length [] = 0
  length (x ∷ xs) = suc (length xs)

  abbrev pub get_elem? : List A → ℕ → Option A
  get_elem? [] i = none
  get_elem? (x ∷ xs) zero = some x
  get_elem? (x ∷ xs) (suc i) = get_elem? xs i

  abbrev pub set : List A → ℕ → A → List A
  set [] i v = []
  set (x ∷ xs) zero v = v ∷ xs
  set (x ∷ xs) (suc i) v = x ∷ set xs i v

  pub length-append : (xs ys : List A) → length (xs ++ ys) ≡ length xs + length ys
  length-append [] ys = omega arith
  length-append (x ∷ xs) ys = omega (arith, length-append xs ys)

module _ {ℓ} {A : Type ℓ} where
  pub length-set : (xs : List A) (i : ℕ) (v : A) → length (set xs i v) ≡ length xs
  length-set [] i v = refl
  length-set (x ∷ xs) zero v = refl
  length-set (x ∷ xs) (suc i) v = ap suc (length-set xs i v)

-- Predicates on lists by recursion, which the tactics take apart.
abbrev pub All {ℓ κ} : {A : Type ℓ} → (A → Type κ) → List A → Type κ
All P [] = Unit
All P (x ∷ xs) = P x × All P xs

pub All-append {ℓ κ} :
    {A : Type ℓ} (P : A → Type κ) (xs ys : List A) → All P xs → All P ys → All P (xs ++ ys)
All-append P [] ys front back = back
All-append P (x ∷ xs) ys (p, front) back = (p, All-append P xs ys front back)

-- `name in names`, for a list or a set of texts.
unfoldable pub contains : String → List String → Bool
contains s [] = false
contains s (t ∷ ts) = (t == s) || contains s ts

-- `s.add(x)`, on a set of texts
unfoldable pub add_to_set : String → List String → List String
unfolding contains
add_to_set x xs = if contains x xs then xs else x ∷ xs

-- An element of a list, with its place.
abbrev pub Among : {A : Type 0} → A → List A → Type 0
Among a [] = ⊥
Among a (x ∷ xs) = (a ≡ x) ⊎ Among a xs

pub append_empty {ℓ} : {A : Type ℓ} (xs ys : List A) → xs ++ ys ≡ [] → (xs ≡ []) × (ys ≡ [])
append_empty [] ys h = (refl, h)
append_empty (x ∷ xs) ys h = cc

pub append_assoc {ℓ} : {A : Type ℓ} (xs ys zs : List A) → (xs ++ ys) ++ zs ≡ xs ++ (ys ++ zs)
append_assoc [] ys zs = refl
append_assoc (x ∷ xs) ys zs = ap (λ us. x ∷ us) (append_assoc xs ys zs)

pub append_nil {ℓ} : {A : Type ℓ} (xs : List A) → xs ++ [] ≡ xs
append_nil [] = refl
append_nil (x ∷ xs) = ap (λ us. x ∷ us) (append_nil xs)
