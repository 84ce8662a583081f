-- ===== src/Delta/Same.antt =====
-- `diff_event_as_map` and `diff_event_as_list` find no difference exactly between equal values.
use mathlib.Core.Bool.{and_comm}
use sieve.Prelude.{
  ap, ℕ, suc, ◌↔◌, ◌≡◌, refl, sym, ◌∙◌, eq_iff, String, Bool, true, false, ◌&&◌, Option, none, some,
  nat_eq, arith,
}
use sieve.Json.{
  Value, str, list, dict, Items, nil, cons, Fields, end, field, get, extend, same, same_items,
  same_fields, items_length, is_str, keys_within,
}
use sieve.Json.Laws.{has-get}
use sieve.Common.{sieve_idx_skip}
use sieve.Delta.Diff.{
  item_diff, add_key, all_skipped, finish_list, without_keys, is_end, finish_map, both_lists,
  both_dicts, diff_value, diff_items, diff_common, diff_event_as_map, diff_event_as_list,
}

abbrev pub is_none {ℓ} : {A : Type ℓ} → Option A → Bool
is_none none = true
is_none (some a) = false

is_end-extend : (c d : Fields) → is_end (extend c d) ≡ (is_end c && is_end d)
is_end-extend end d = refl
is_end-extend (field k v c) d = refl

is_end-without_keys : (c d : Fields) → is_end (without_keys c d) ≡ keys_within c d
unfolding without_keys keys_within
is_end-without_keys end d = refl
is_end-without_keys (field k v c) d = ground (arith, is_end-without_keys c d)

finish_map-none :
    (prev cur c d : Fields)
    → is_none (finish_map prev cur (c, d))
      ≡ (is_end d && is_end c && keys_within cur prev && keys_within prev cur)
unfolding finish_map
finish_map-none prev cur c d = ground (
  arith,
  is_end-extend c (without_keys prev cur),
  is_end-extend d (without_keys cur prev),
  is_end-without_keys prev cur,
  is_end-without_keys cur prev,
)

finish_list-none :
    (prev cur xs ys : Items)
    → is_none (finish_list prev cur (xs, ys))
      ≡ (nat_eq (items_length cur) (items_length prev) && (all_skipped xs && all_skipped ys))
unfolding finish_list
finish_list-none prev cur xs ys = ground arith

both_skipped : Option (Value × Value) → Bool
both_skipped o = is_str sieve_idx_skip (item_diff o).0 && is_str sieve_idx_skip (item_diff o).1

both_lists-skipped : (o : Option (Items × Items)) → both_skipped (both_lists o) ≡ is_none o
unfolding both_skipped
both_lists-skipped none = refl
both_lists-skipped (some d) = refl

both_dicts-skipped : (o : Option (Fields × Fields)) → both_skipped (both_dicts o) ≡ is_none o
unfolding both_skipped
both_dicts-skipped none = refl
both_dicts-skipped (some d) = refl

is_none-both_lists : (o : Option (Items × Items)) → is_none (both_lists o) ≡ is_none o
is_none-both_lists none = refl
is_none-both_lists (some d) = refl

is_none-both_dicts : (o : Option (Fields × Fields)) → is_none (both_dicts o) ≡ is_none o
is_none-both_dicts none = refl
is_none-both_dicts (some d) = refl

-- The values of a difference are not both the skip mark.
diff_value-skipped : (v w : Value) → both_skipped (diff_value v w) ≡ is_none (diff_value v w)
unfolding diff_value
diff_value-skipped (list xs) (list ys) =
    both_lists-skipped (finish_list xs ys (diff_items xs ys)) ∙ sym (is_none-both_lists _)
diff_value-skipped (dict c) (dict d) =
    both_dicts-skipped (finish_map c d (diff_common c d)) ∙ sym (is_none-both_dicts _)
diff_value-skipped (str s) (str t) =
    unfold both_skipped same in
    ground (arith, eq_iff s t, eq_iff s sieve_idx_skip, eq_iff t sieve_idx_skip)
diff_value-skipped v w = unfold both_skipped in ground arith

and_step :
    (n p q a b s r : Bool)
    → (p && q) ≡ s
    → (n && (a && b)) ≡ r
    → (n && ((p && a) && (q && b))) ≡ (s && r)
and_step n p q a b s r h k = ground arith

nat_eq-suc : (m n : ℕ) → nat_eq (suc m) (suc n) ≡ nat_eq m n
nat_eq-suc m n = ground arith

nat_eq-suc_zero : (n : ℕ) → nat_eq (suc n) 0 ≡ false
nat_eq-suc_zero n = ground arith

nat_eq-zero_suc : (n : ℕ) → nat_eq 0 (suc n) ≡ false
nat_eq-zero_suc n = ground arith

-- One more pair of items, from the facts about its values and about the rest.
items_step :
    (x y : Value) (xs ys : Items)
    → is_none (diff_value x y) ≡ same x y
    → (nat_eq (items_length ys) (items_length xs)
        && (all_skipped (diff_items xs ys).0 && all_skipped (diff_items xs ys).1))
      ≡ same_items xs ys
    → (nat_eq (items_length (cons y ys)) (items_length (cons x xs))
        && (all_skipped (diff_items (cons x xs) (cons y ys)).0
            && all_skipped (diff_items (cons x xs) (cons y ys)).1))
      ≡ same_items (cons x xs) (cons y ys)
unfolding diff_items same_items all_skipped both_skipped
items_step x y xs ys hv h = rw (nat_eq-suc (items_length ys) (items_length xs)) (
    and_step (nat_eq (items_length ys) (items_length xs))
      (is_str sieve_idx_skip (item_diff (diff_value x y)).0)
      (is_str sieve_idx_skip (item_diff (diff_value x y)).1) (all_skipped (diff_items xs ys).0)
      (all_skipped (diff_items xs ys).1) (same x y) (same_items xs ys) (diff_value-skipped x y ∙ hv)
      h)

abbrev added : Option Value → String → Value → Fields × Fields → Fields × Fields
added o k w rest = elim o [ none ↦ rest | some v ↦ add_key k (diff_value v w) rest ]

changed_step :
    (o : Option (Value × Value)) (k : String) (rest : Fields × Fields) (keys rest_same : Bool)
    → (is_end rest.1 && is_end rest.0 && keys) ≡ rest_same
    → (is_end (add_key k o rest).1 && is_end (add_key k o rest).0 && keys)
      ≡ (is_none o && rest_same)
changed_step none k rest keys s h = h
changed_step (some (a, b)) k rest keys s h = refl

-- One more item of the current dict, by what the previous dict holds at its key.
common_step_at :
    (o : Option Value) (k : String) (w : Value) (rest : Fields × Fields) (keys rest_same : Bool)
    → ((v : Value) → is_none (diff_value v w) ≡ same v w)
    → (is_end rest.1 && is_end rest.0 && keys) ≡ rest_same
    → (is_end (added o k w rest).1
        && is_end (added o k w rest).0
        && ((elim o [ none ↦ false | some v ↦ true ]) && keys))
      ≡ (elim o [ none ↦ false | some v ↦ same v w && rest_same ])
common_step_at none k w rest keys s hv h = ground arith
common_step_at (some v) k w rest keys s hv h =
    rw (← hv v) (changed_step (diff_value v w) k rest keys s h)

common_step :
    (c d : Fields) (k : String) (w : Value)
    → ((v : Value) → is_none (diff_value v w) ≡ same v w)
    → (is_end (diff_common c d).1 && is_end (diff_common c d).0 && keys_within d c)
      ≡ same_fields c d
    → (is_end (diff_common c (field k w d)).1
        && is_end (diff_common c (field k w d)).0
        && keys_within (field k w d) c)
      ≡ same_fields c (field k w d)
unfolding diff_common same_fields keys_within
common_step c d k w hv h =
    rw (has-get k c) (common_step_at (get k c) k w (diff_common c d) (keys_within d c) _ hv h)

mutual
  unfolding diff_value diff_items diff_common same keys_within all_skipped

  diff_value-same : (v w : Value) → is_none (diff_value v w) ≡ same v w
  diff_value-same (dict c) (dict d) =
      is_none-both_dicts (finish_map c d (diff_common c d))
      ∙ finish_map-none c d (diff_common c d).0 (diff_common c d).1
      ∙ ap (λ b. b && keys_within c d) (diff_common-same c d)
      ∙ and_comm (same_fields c d) (keys_within c d)
  diff_value-same (list xs) (list ys) =
      is_none-both_lists (finish_list xs ys (diff_items xs ys))
      ∙ finish_list-none xs ys (diff_items xs ys).0 (diff_items xs ys).1
      ∙ diff_items-same xs ys
  diff_value-same v w = ground arith

  diff_items-same :
      (xs ys : Items)
      → (nat_eq (items_length ys) (items_length xs)
          && (all_skipped (diff_items xs ys).0 && all_skipped (diff_items xs ys).1))
        ≡ same_items xs ys
  diff_items-same nil nil = refl
  diff_items-same nil (cons y ys) =
      ap (λ b. b && all_skipped (cons y ys)) (nat_eq-suc_zero (items_length ys))
  diff_items-same (cons x xs) nil =
      ap (λ b. b && (all_skipped (cons x xs) && true)) (nat_eq-zero_suc (items_length xs))
  diff_items-same (cons x xs) (cons y ys) =
      items_step x y xs ys (diff_value-same x y) (diff_items-same xs ys)

  -- The loop of `diff_event_as_map` adds nothing, and no key is new.
  diff_common-same :
      (c d : Fields)
      → (is_end (diff_common c d).1 && is_end (diff_common c d).0 && keys_within d c)
        ≡ same_fields c d
  diff_common-same c end = refl
  diff_common-same c (field k w d) =
      common_step c d k w (λ v. diff_value-same v w) (diff_common-same c d)

none_iff {ℓ} : {A : Type ℓ} (o : Option A) (b : Bool) → is_none o ≡ b → (o ≡ none) ↔ (b ≡ true)
none_iff none b h = (λ e. sym h, λ e. refl)
none_iff (some a) b h = (λ e. cc, λ e. cc)

-- `diff_event_as_map` returns `(None, None)` exactly when the two objects are equal.
pub diff_event_as_map-none :
    (prev cur : Fields) → (diff_event_as_map prev cur ≡ none) ↔ (same (dict prev) (dict cur) ≡ true)
unfolding diff_event_as_map diff_value
diff_event_as_map-none prev cur =
    none_iff _ _ (sym (is_none-both_dicts _) ∙ diff_value-same (dict prev) (dict cur))

-- `diff_event_as_list` returns `(None, None)` exactly when the two lists are equal.
pub diff_event_as_list-none :
    (prev cur : Items) → (diff_event_as_list prev cur ≡ none) ↔ (same (list prev) (list cur) ≡ true)
unfolding diff_event_as_list diff_value
diff_event_as_list-none prev cur =
    none_iff _ _ (sym (is_none-both_lists _) ∙ diff_value-same (list prev) (list cur))
