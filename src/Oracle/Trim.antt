-- ===== src/Oracle/Trim.antt =====
-- What a learning run keeps of two runs: `second_pass_learn_trim` of sieve_oracle/checker_common.py and
-- `remove_ignored_value` of safety_checker.py. The paths that DeepDiff finds between the two runs are a
-- parameter.
use sieve.Prelude.{
  ℕ, zero, suc, String, ◌==◌, ◌≡◌, refl, subst, Bool, true, false, Bool-cases, ◌||◌, List, [], ◌∷◌,
  Option, none, some, Result, ok, err, index_error, type_error, from_option, from_option-ok, ◌>>=◌,
  if◌then◌else◌, >>=-eq-ok, ok_inj, inl, inr, eq_refl,
}
use sieve.Json.{
  Value, null, bool, num, str, list, dict, Items, nil, cons, Fields, end, field, get, pop, is_str,
}
use sieve.Common.{sieve_learn_value_mask}
use sieve.Event.Keys.{item, as_dict}
use sieve.Oracle.Masks.{PathItem, key, index}

-- `d[k] = v`, on the fields of a value
unfoldable pub set_field : String → Value → Fields → Fields
set_field k v end = field k v end
set_field k v (field j w d) = if j == k then field j v d else field j w (set_field k v d)

-- `l[i]` and `l[i] = v`
unfoldable pub item_at : ℕ → Items → Option Value
item_at i nil = none
item_at zero (cons x xs) = some x
item_at (suc i) (cons x xs) = item_at i xs

unfoldable pub set_item : ℕ → Value → Items → Items
set_item i v nil = nil
set_item zero v (cons x xs) = cons v xs
set_item (suc i) v (cons x xs) = cons x (set_item i v xs)

-- A step into a value, and the value with another one at that step.
unfoldable pub step_into : PathItem → Value → Result Value
unfolding item item_at
step_into (key k) (dict d) = item k d
step_into (index i) (list xs) = from_option index_error (item_at i xs)
step_into step v = err type_error

unfoldable pub assign : PathItem → Value → Value → Result Value
unfolding set_field item_at set_item
assign (key k) v (dict d) = ok (dict (set_field k v d))
assign (index i) v (list xs) = do
  x ← from_option index_error (item_at i xs)
  ok (list (set_item i v xs))
assign step v w = err type_error

-- `nested_set`; `keys[-1]` of an empty path raises an `IndexError`
unfoldable pub nested_set : List PathItem → Value → Value → Result Value
unfolding assign step_into
nested_set [] v dic = err index_error
nested_set (step ∷ []) v dic = assign step v dic
nested_set (step ∷ next ∷ path) v dic = do
  inner ← step_into step dic
  inner' ← nested_set (next ∷ path) v inner
  assign step inner' dic

unfoldable pub mask_paths : List (List PathItem) → Value → Result Value
unfolding nested_set
mask_paths [] v = ok v
mask_paths (path ∷ paths) v = do
  v' ← nested_set path (str sieve_learn_value_mask) v
  mask_paths paths v'

-- The paths of `values_changed` and of `dictionary_item_added`, between the second run and the first.
unfoldable pub second_pass_learn_trim :
    (Value → Value → List (List PathItem) × List (List PathItem)) → Value → Value → Result Value
unfolding mask_paths
second_pass_learn_trim deep_diff base_resources twice_resources = do
  let paths = deep_diff twice_resources base_resources
  changed ← mask_paths paths.0 base_resources
  mask_paths paths.1 changed

-- Whether an entry of the digest is masked, or one of its counts.
unfoldable pub any_masked : Fields → Bool
any_masked end = false
any_masked (field etype v d) = is_str sieve_learn_value_mask v || any_masked d

unfoldable pub is_ignored : Value → Result Bool
unfolding any_masked
is_ignored v =
    if is_str sieve_learn_value_mask v then ok true else (do d ← as_dict v; ok (any_masked d))

unfoldable pub ignored_keys : Fields → Result (List String)
unfolding is_ignored
ignored_keys end = ok []
ignored_keys (field k v d) = do
  ignored ← is_ignored v
  rest ← ignored_keys d
  ok (if ignored then k ∷ rest else rest)

unfoldable pub pop_all : List String → Fields → Fields
unfolding pop
pop_all [] d = d
pop_all (k ∷ ks) d = pop_all ks (pop k d)

unfoldable pub remove_ignored_value : Fields → Result Fields
unfolding ignored_keys pop_all
remove_ignored_value event_map = do ignored ← ignored_keys event_map; ok (pop_all ignored event_map)

-- The value at the end of a path.
unfoldable pub get_path : List PathItem → Value → Result Value
unfolding step_into
get_path [] v = ok v
get_path (step ∷ path) v = do inner ← step_into step v; get_path path inner

get-set_field : (k : String) (v : Value) (d : Fields) → get k (set_field k v d) ≡ some v
unfolding get set_field
get-set_field k v end = rw (eq_refl k) refl
get-set_field k v (field j w d) = elim (Bool-cases (j == k)) [
  | inl q ↦ rw (q, set_field) (rw q refl)
  | inr q ↦ rw (q, set_field) (rw q (get-set_field k v d))
]

item_at-set_item :
    (i : ℕ) (v x : Value) (xs : Items)
    → item_at i xs ≡ some x
    → item_at i (set_item i v xs) ≡ some v
unfolding item_at set_item
item_at-set_item i v x nil e = cc
item_at-set_item zero v x (cons y ys) e = refl
item_at-set_item (suc i) v x (cons y ys) e = item_at-set_item i v x ys e

assign-step_into :
    (step : PathItem) (v w w' : Value) → assign step v w ≡ ok w' → step_into step w' ≡ ok v
unfolding assign step_into item
assign-step_into (key k) v (dict d) w' e =
    subst (λ x. step_into (key k) x ≡ ok v) (ok_inj e) (rw (get-set_field k v d) refl)
assign-step_into (index i) v (list xs) w' e =
    let (x, p, q) = >>=-eq-ok (from_option index_error (item_at i xs)) _ e in
    subst (λ y. step_into (index i) y ≡ ok v) (ok_inj q)
      (rw (item_at-set_item i v x xs (from_option-ok index_error (item_at i xs) p)) refl)
assign-step_into (key k) v null w' e = cc
assign-step_into (key k) v (bool b) w' e = cc
assign-step_into (key k) v (num n) w' e = cc
assign-step_into (key k) v (str s) w' e = cc
assign-step_into (key k) v (list xs) w' e = cc
assign-step_into (index i) v null w' e = cc
assign-step_into (index i) v (bool b) w' e = cc
assign-step_into (index i) v (num n) w' e = cc
assign-step_into (index i) v (str s) w' e = cc
assign-step_into (index i) v (dict d) w' e = cc

-- If `nested_set` returns for a path, then following the path into the value that it leaves leads to
-- the value that was set.
pub nested_set-get_path :
    (path : List PathItem) (v w w' : Value) → nested_set path v w ≡ ok w' → get_path path w' ≡ ok v
unfolding nested_set get_path
nested_set-get_path [] v w w' e = cc
nested_set-get_path (step ∷ []) v w w' e = rw (assign-step_into step v w w' e) refl
nested_set-get_path (step ∷ next ∷ path) v w w' e =
    let (inner, p, e₁) = >>=-eq-ok (step_into step w) _ e in
    let (inner', q, e₂) = >>=-eq-ok (nested_set (next ∷ path) v inner) _ e₁ in
    rw (assign-step_into step inner' w w' e₂) (nested_set-get_path (next ∷ path) v inner inner' q)
