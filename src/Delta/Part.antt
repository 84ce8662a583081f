-- ===== src/Delta/Part.antt =====
-- `diff_event`, the test that an object holds what a difference shows, and the conflict test of
-- sieve_common/event_delta.py.
use sieve.Prelude.{String, Bool, true, false, not, List, ◌&&◌, Option, none, some, if◌then◌else◌}
use sieve.Json.{
  Value, null, bool, num, str, list, dict, Items, nil, cons, Fields, end, field, get, pop, same,
  is_str, keys_within,
}
use sieve.Common.{sieve_idx_skip}
use sieve.Delta.Diff.{diff_event_as_map}
use sieve.Delta.Canonical.{canonicalize_event}

-- `event.pop("kind", None)`, then `event.pop("apiVersion", None)`
unfoldable pub trim_kind_apiversion : Fields → Fields
unfolding pop
trim_kind_apiversion event = pop "apiVersion" (pop "kind" event)

-- The copies keep the objects of the caller as they are.
unfoldable pub diff_event :
    Fields → Fields → List String → List String → Bool → Bool → Option (Fields × Fields)
unfolding trim_kind_apiversion canonicalize_event diff_event_as_map
diff_event prev cur masked_keys masked_paths trim_ka can =
    let prev_trimmed = if trim_ka then trim_kind_apiversion prev else prev in
    let cur_trimmed = if trim_ka then trim_kind_apiversion cur else cur in
    let prev_copy =
      if can then canonicalize_event masked_keys masked_paths prev_trimmed else prev_trimmed in
    let cur_copy =
      if can then canonicalize_event masked_keys masked_paths cur_trimmed else cur_trimmed in
    diff_event_as_map prev_copy cur_copy

unfoldable mutual
  -- The body of both loops, for a value of the small event and one of the large event.
  pub part_of_value : Value → Value → Bool
  part_of_value (dict small) (dict large) = keys_within small large && part_of_fields small large
  part_of_value (dict small) large = false
  part_of_value (list small) (list large) = part_of_event_as_list small large
  part_of_value (list small) large = false
  part_of_value null large = same null large
  part_of_value (bool b) large = same (bool b) large
  part_of_value (num n) large = same (num n) large
  part_of_value (str s) large = same (str s) large

  pub part_of_event_as_list : Items → Items → Bool
  part_of_event_as_list nil nil = true
  part_of_event_as_list nil (cons y ys) = false
  part_of_event_as_list (cons x xs) nil = false
  part_of_event_as_list (cons x xs) (cons y ys) =
      let below = part_of_value x y in
      (if is_str sieve_idx_skip x then true else below) && part_of_event_as_list xs ys

  -- The second loop of `part_of_event_as_map`, which the first has shown to find every key.
  pub part_of_fields : Fields → Fields → Bool
  part_of_fields end large = true
  part_of_fields (field key v small) large =
      let rest = part_of_fields small large in
      elim (get key large) [ none ↦ false | some w ↦ part_of_value v w && rest ]

unfoldable pub part_of_event_as_map : Fields → Fields → Bool
unfolding part_of_fields
part_of_event_as_map small large = keys_within small large && part_of_fields small large

unfoldable pub conflicting_event_payload : Option Fields → Fields → List String → List String → Bool
unfolding canonicalize_event part_of_event_as_map
conflicting_event_payload none large masked_keys masked_paths = false
conflicting_event_payload (some small) large masked_keys masked_paths =
    not (part_of_event_as_map small (canonicalize_event masked_keys masked_paths large))
