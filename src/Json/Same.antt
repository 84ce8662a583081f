-- ===== src/Json/Same.antt =====
-- `==` on values is reflexive, for dicts that hold each key once.
use sieve.Prelude.{String, ◌≡◌, refl, eq_refl, true, some, arith, int_eq, ℤ, pos, negsuc}
use sieve.Json.{
  Value, null, bool, num, str, list, dict, Items, nil, cons, Fields, end, field, get, same,
  same_items, same_fields, keys_within, int_of_bool,
}
use sieve.Json.Laws.{has-get}
use sieve.Json.Unique.{IsUnique, UniqueItems, UniqueFields, Within, Within-refl}

pub int_eq_refl : (n : ℤ) → int_eq n n ≡ true
int_eq_refl (pos n) = ground arith
int_eq_refl (negsuc n) = ground arith

same_fields-field :
    (k : String) (v w : Value) (c d : Fields)
    → get k c ≡ some v
    → same v w ≡ true
    → same_fields c d ≡ true
    → same_fields c (field k w d) ≡ true
unfolding same_fields
same_fields-field k v w c d e h r = ground arith

keys_within-Within : (c d : Fields) → Within c d → keys_within c d ≡ true
unfolding keys_within
keys_within-Within end d w = refl
keys_within-Within (field k v c) d w = ground (arith, has-get k d, keys_within-Within c d w.1)

mutual
  unfolding same

  pub same_refl : (v : Value) → IsUnique v → same v v ≡ true
  same_refl (dict d) u =
      ground (
        arith,
        keys_within-Within d d (Within-refl d u),
        same_fields-Within d d u (Within-refl d u),
      )
  same_refl (list xs) u = same_items_refl xs u
  same_refl (str s) u = eq_refl s
  same_refl (num n) u = int_eq_refl n
  same_refl (bool b) u = int_eq_refl (int_of_bool b)
  same_refl null u = refl

  same_items_refl : (xs : Items) → UniqueItems xs → same_items xs xs ≡ true
  same_items_refl nil u = refl
  same_items_refl (cons x xs) u = ground (arith, same_refl x u.0, same_items_refl xs u.1)

  same_fields-Within : (d c : Fields) → UniqueFields d → Within d c → same_fields c d ≡ true
  same_fields-Within end c u w = refl
  same_fields-Within (field k v d) c u w =
      same_fields-field k v v c d w.0 (same_refl v u.1) (same_fields-Within d c u.2 w.1)
