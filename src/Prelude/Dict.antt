-- ===== src/Prelude/Dict.antt =====
-- Python's dicts with text keys, as association lists in insertion order.
use mathlib.Core.Path.{◌≡◌, refl}
use mathlib.Core.List.{List, [], ◌∷◌, ◌++◌}
use mathlib.Core.Option.{Option, none, some}
use native.Mathlib.Omega.{arith}
use text.Mathlib.Text.{◌==◌}
use text.Mathlib.TextEquality.{eq_iff}
use Prim.Native.String.{String}
use sieve.Prelude.Tests.{if◌then◌else◌}

abbrev pub Dict {ℓ} : Type ℓ → Type ℓ
Dict V = List (String × V)

module _ {ℓ} {V : Type ℓ} where
  unfoldable pub lookup : String → Dict V → Option V
  lookup k [] = none
  lookup k ((j, v) ∷ d) = if j == k then some v else lookup k d

  -- `d[k] = v`
  unfoldable pub insert : String → V → Dict V → Dict V
  insert k v [] = (k, v) ∷ []
  insert k v ((j, w) ∷ d) = if j == k then (j, v) ∷ d else (j, w) ∷ insert k v d

  -- `del d[k]`
  unfoldable pub erase : String → Dict V → Dict V
  erase k [] = []
  erase k ((j, w) ∷ d) = let rest = erase k d in if j == k then rest else (j, w) ∷ rest

  pub lookup-insert :
      (k j : String) (v : V) (d : Dict V)
      → lookup j (insert k v d) ≡ (if k == j then some v else lookup j d)
  unfolding lookup insert
  lookup-insert k j v [] = refl
  lookup-insert k j v ((i, w) ∷ d) =
      ground (arith, eq_iff k j, eq_iff i k, eq_iff i j, lookup-insert k j v d)

  pub lookup-erase :
      (k j : String) (d : Dict V) → lookup j (erase k d) ≡ (if k == j then none else lookup j d)
  unfolding lookup erase
  lookup-erase k j [] = ground arith
  lookup-erase k j ((i, w) ∷ d) =
      ground (arith, eq_iff k j, eq_iff i k, eq_iff i j, lookup-erase k j d)

-- `if k not in d: d[k] = []`, then `d[k].append(v)`
unfoldable pub append_at {ℓ} : {V : Type ℓ} → String → V → Dict (List V) → Dict (List V)
append_at k v [] = (k, v ∷ []) ∷ []
append_at k v ((j, vs) ∷ d) = if j == k then (j, vs ++ (v ∷ [])) ∷ d else (j, vs) ∷ append_at k v d
