-- ===== src/Delta/Diff.antt =====
-- `diff_event_as_list`, `diff_event_as_map` and `same_key` of sieve_common/event_delta.py.
-- `(None, None)` is `none`. The two dicts of a difference list their keys in the order of the current
-- object, then those that only one object has; Python's sets leave that order open.
use sieve.Prelude.{String, Bool, true, false, ◌&&◌, Option, none, some, nat_eq, if◌then◌else◌}
use sieve.Json.{
  Value, null, bool, num, str, list, dict, Items, nil, cons, Fields, end, field, get, has, extend,
  same, items_length, is_str, keys_within,
}
use sieve.Common.{sieve_idx_skip}

-- What a difference holds of an item: the two values, or the skip mark where nothing changed.
abbrev pub item_diff : Option (Value × Value) → Value × Value
item_diff none = (str sieve_idx_skip, str sieve_idx_skip)
item_diff (some d) = d

-- One more item in front of the two lists.
abbrev pub add_item : Value × Value → Items × Items → Items × Items
add_item (a, b) (xs, ys) = (cons a xs, cons b ys)

-- One more key in front of the two dicts, if its values differ.
abbrev pub add_key : String → Option (Value × Value) → Fields × Fields → Fields × Fields
add_key key none d = d
add_key key (some (a, b)) (c, d) = (field key a c, field key b d)

-- `l[i] == SIEVE_IDX_SKIP` for every `i`
unfoldable pub all_skipped : Items → Bool
all_skipped nil = true
all_skipped (cons x xs) = is_str sieve_idx_skip x && all_skipped xs

-- The test at the end of `diff_event_as_list`, on the lists that its loops have filled.
unfoldable pub finish_list : Items → Items → Items × Items → Option (Items × Items)
unfolding all_skipped
finish_list prev cur (xs, ys) =
    if nat_eq (items_length cur) (items_length prev) && (all_skipped xs && all_skipped ys)
    then none
    else some (xs, ys)

-- The items of the first dict whose key the second lacks.
unfoldable pub without_keys : Fields → Fields → Fields
without_keys end d = end
without_keys (field k v c) d =
    let rest = without_keys c d in if has k d then rest else field k v rest

abbrev pub is_end : Fields → Bool
is_end end = true
is_end (field k v d) = false

-- The rest of `diff_event_as_map`, after its loop over the common keys.
unfoldable pub finish_map : Fields → Fields → Fields × Fields → Option (Fields × Fields)
unfolding without_keys
finish_map prev cur (c, d) =
    let diff_prev = extend c (without_keys prev cur) in
    let diff_cur = extend d (without_keys cur prev) in
    if is_end diff_cur && is_end diff_prev then none else some (diff_prev, diff_cur)

abbrev pub both_lists : Option (Items × Items) → Option (Value × Value)
both_lists none = none
both_lists (some (xs, ys)) = some (list xs, list ys)

abbrev pub both_dicts : Option (Fields × Fields) → Option (Value × Value)
both_dicts none = none
both_dicts (some (c, d)) = some (dict c, dict d)

unfoldable mutual
  unfolding finish_list finish_map

  -- The body of both loops: the values of an index or a key, `none` where they are left out.
  pub diff_value : Value → Value → Option (Value × Value)
  diff_value (dict prev) (dict cur) = both_dicts (finish_map prev cur (diff_common prev cur))
  diff_value prev (dict cur) = some (prev, dict cur)
  diff_value (list prev) (list cur) = both_lists (finish_list prev cur (diff_items prev cur))
  diff_value prev (list cur) = some (prev, list cur)
  diff_value prev null = if same prev null then none else some (prev, null)
  diff_value prev (bool b) = if same prev (bool b) then none else some (prev, bool b)
  diff_value prev (num n) = if same prev (num n) then none else some (prev, num n)
  diff_value prev (str s) = if same prev (str s) then none else some (prev, str s)

  -- The three loops of `diff_event_as_list`: the common indices, then the rest of the longer list.
  pub diff_items : Items → Items → Items × Items
  diff_items nil cur = (nil, cur)
  diff_items (cons x xs) nil = (cons x xs, nil)
  diff_items (cons x xs) (cons y ys) = add_item (item_diff (diff_value x y)) (diff_items xs ys)

  -- The loop of `diff_event_as_map` over the keys that both dicts have.
  pub diff_common : Fields → Fields → Fields × Fields
  diff_common prev end = (end, end)
  diff_common prev (field key w cur) =
      let rest = diff_common prev cur in
      elim (get key prev) [ none ↦ rest | some v ↦ add_key key (diff_value v w) rest ]

unfoldable pub diff_event_as_list : Items → Items → Option (Items × Items)
unfolding diff_items finish_list
diff_event_as_list prev cur = finish_list prev cur (diff_items prev cur)

unfoldable pub diff_event_as_map : Fields → Fields → Option (Fields × Fields)
unfolding diff_common finish_map
diff_event_as_map prev cur = finish_map prev cur (diff_common prev cur)

-- The keys of the two objects agree, and so do those of the dicts below common keys; lists are not
-- entered.
unfoldable mutual
  pub same_key_value : Value → Value → Bool
  same_key_value (dict prev) (dict cur) =
      keys_within prev cur && keys_within cur prev && same_key_fields prev cur
  same_key_value (dict prev) cur = false
  same_key_value prev cur = true

  pub same_key_fields : Fields → Fields → Bool
  same_key_fields end cur = true
  same_key_fields (field key v prev) cur =
      let rest = same_key_fields prev cur in
      elim (get key cur) [ none ↦ rest | some w ↦ same_key_value v w && rest ]

unfoldable pub same_key : Fields → Fields → Bool
unfolding same_key_fields
same_key prev cur = keys_within prev cur && keys_within cur prev && same_key_fields prev cur
