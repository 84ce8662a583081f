-- ===== src/Json/Unique.antt =====
-- The dicts of Python hold each key once, at every depth.
use sieve.Prelude.{
  String, ◌≡◌, refl, inl, inr, false, some, arith, eq_cases, eq_refl, eq_iff, subst,
}
use sieve.Json.{
  Value, null, bool, num, str, list, dict, Items, nil, cons, Fields, end, field, get, has,
}

abbrev mutual
  pub IsUnique : Value → Type 0
  IsUnique (list xs) = UniqueItems xs
  IsUnique (dict d) = UniqueFields d
  IsUnique null = Unit
  IsUnique (bool b) = Unit
  IsUnique (num n) = Unit
  IsUnique (str s) = Unit

  pub UniqueItems : Items → Type 0
  UniqueItems nil = Unit
  UniqueItems (cons x xs) = IsUnique x × UniqueItems xs

  pub UniqueFields : Fields → Type 0
  UniqueFields end = Unit
  UniqueFields (field k v d) = (has k d ≡ false) × IsUnique v × UniqueFields d

-- Each item of the first dict is what the second holds at its key.
abbrev pub Within : Fields → Fields → Type 0
Within end d = Unit
Within (field k v c) d = (get k d ≡ some v) × Within c d

pub Within-field :
    (c d : Fields) (k : String) (v : Value) → has k c ≡ false → Within c d → Within c (field k v d)
unfolding has get
Within-field end d k v h w = tt
Within-field (field j u c) d k v h (e, w) = elim (eq_cases j k) [
  | inl (p, q) ↦ ground arith
  | inr (p, q) ↦ (ground (arith, eq_iff k j), Within-field c d k v (ground arith) w)
]

-- A dict that holds each key once is within itself.
pub Within-refl : (d : Fields) → UniqueFields d → Within d d
unfolding get
Within-refl end u = tt
Within-refl (field k v d) u = (rw eq_refl refl, Within-field d d k v u.0 (Within-refl d u.2))

pub UniqueFields-get :
    (k : String) (d : Fields) {v : Value} → UniqueFields d → get k d ≡ some v → IsUnique v
unfolding get
UniqueFields-get k end u e = cc
UniqueFields-get k (field j w d) {v} u e = elim (eq_cases j k) [
  | inl (p, q) ↦ let r : w ≡ v = ground arith in subst IsUnique r u.1
  | inr (p, q) ↦ UniqueFields-get k d u.2 (ground arith)
]
