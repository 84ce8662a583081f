-- ===== src/Json/Laws.antt =====
-- Lookups in dicts, and `==` on values.
use sieve.Prelude.{String, ◌≡◌, refl, true, false, none, some, arith}
use sieve.Json.{Fields, end, field, get, has}

-- `key in d` and `d.get(key)` agree.
pub has-get :
    (k : String) (d : Fields) → has k d ≡ (elim (get k d) [ none ↦ false | some v ↦ true ])
unfolding has get
has-get k end = refl
has-get k (field j v d) = ground (arith, has-get k d)
