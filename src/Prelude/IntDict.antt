-- ===== src/Prelude/IntDict.antt =====
-- Python's dicts with integer keys, as association lists in insertion order.
use mathlib.Core.Path.{◌≡◌, refl, ap}
use mathlib.Core.Logic.{◌↔◌}
use mathlib.Core.Bool.{true}
use mathlib.Core.List.{List, [], ◌∷◌}
use mathlib.Core.Option.{Option, none, some}
use native.Mathlib.Omega.{arith}
use sieve.Prelude.Int.{ℤ, pos, negsuc, int_eq, pos_part, neg_part}
use sieve.Prelude.Tests.{if◌then◌else◌, nat_eq_iff}

pub int_eq_iff : (a b : ℤ) → (int_eq a b ≡ true) ↔ (a ≡ b)
int_eq_iff (pos m) (pos n) =
    (λ h. ap pos ((nat_eq_iff m n).0 h), λ e. (nat_eq_iff m n).1 (ap pos_part e))
int_eq_iff (pos m) (negsuc n) = (λ h. cc, λ h. cc)
int_eq_iff (negsuc m) (pos n) = (λ h. cc, λ h. cc)
int_eq_iff (negsuc m) (negsuc n) = (
  λ h. ap negsuc ((nat_eq_iff m n).0 h),
  λ e. (nat_eq_iff m n).1 (let k = ap neg_part e in omega arith),
)

abbrev pub IntDict {ℓ} : Type ℓ → Type ℓ
IntDict V = List (ℤ × V)

module _ {ℓ} {V : Type ℓ} where
  unfoldable pub lookup_int : ℤ → IntDict V → Option V
  lookup_int k [] = none
  lookup_int k ((j, v) ∷ d) = if int_eq j k then some v else lookup_int k d

  -- `d[k] = v`
  unfoldable pub insert_int : ℤ → V → IntDict V → IntDict V
  insert_int k v [] = (k, v) ∷ []
  insert_int k v ((j, w) ∷ d) = if int_eq j k then (j, v) ∷ d else (j, w) ∷ insert_int k v d

  pub lookup-insert_int :
      (k j : ℤ) (v : V) (d : IntDict V)
      → lookup_int j (insert_int k v d) ≡ (if int_eq k j then some v else lookup_int j d)
  unfolding lookup_int insert_int
  lookup-insert_int k j v [] = refl
  lookup-insert_int k j v ((i, w) ∷ d) =
      let rest = lookup-insert_int k j v d in
      ground (arith, int_eq_iff k j, int_eq_iff i k, int_eq_iff i j, rest)
