-- ===== src/Policy/Detectable.antt =====
-- sieve_perturbation_policies/common.py: whether a test coordinator can recognise an event.
use sieve.Prelude.{
  ℕ, String, ◌==◌, Bool, true, false, not, ◌&&◌, ◌||◌, Option, none, some, Result, ok, check, ◌>>=◌,
  ◌>>◌, contains, ltb, if◌then◌else◌,
}
use sieve.Json.{Value, str, dict, Fields, get, has, same}
use sieve.Common.{sieve_learn_value_mask}
use sieve.Event.ApiTypes
use sieve.Event.HearTypes
use sieve.Event.HearTypes.{detectable_controller_hear_types}
use sieve.Event.WriteTypes
use sieve.Event.WriteTypes.{detectable_controller_write_types}
use sieve.Event.Types.{event_none_type}
use sieve.Event.Keys.{extract_generate_name, is_generated_random_name, as_str}
use sieve.Policy.Context.{TestContext}

unfoldable pub convert_deltafifo_etype_to_api_etype : String → String
convert_deltafifo_etype_to_api_etype etype =
    if etype == HearTypes.added
    then ApiTypes.added
    else if etype == HearTypes.updated
    then ApiTypes.modified
    else if etype == HearTypes.deleted
    then ApiTypes.deleted
    else ApiTypes.modified

-- Each of the three assertions is that its condition does not hold.
unfoldable pub event_diff_validation_check : String → String → Result (Unit {0})
event_diff_validation_check prev_etype cur_etype = do
  check (
      not (
        prev_etype == cur_etype
        && (prev_etype == HearTypes.added || prev_etype == HearTypes.deleted)))
  check (
      not (
        prev_etype == HearTypes.deleted
        && not (cur_etype == HearTypes.added)
        && not (cur_etype == HearTypes.updated)))
  check (
      not (
        not (prev_etype == event_none_type)
        && not (prev_etype == HearTypes.deleted)
        && cur_etype == HearTypes.added))

-- `a == b` where either may be `None`
unfoldable pub same_object : Option Fields → Option Fields → Bool
unfolding same
same_object none none = true
same_object (some a) (some b) = same (dict a) (dict b)
same_object _ _ = false

-- `obj is not None and "status" not in obj`
unfoldable pub lacks_status : Option Fields → Bool
unfolding has
lacks_status none = false
lacks_status (some obj) = not (has "status" obj)

abbrev pub is_status_write : String → Bool
is_status_write etype = etype == WriteTypes.status_update || etype == WriteTypes.status_patch

abbrev pub is_update_write : String → Bool
is_update_write etype =
    etype == WriteTypes.update
    || etype == WriteTypes.patch
    || etype == WriteTypes.status_update
    || etype == WriteTypes.status_patch

unfoldable pub detectable_hear : Option Fields → Option Fields → String → String → Bool
unfolding same_object contains
detectable_hear diff_prev diff_cur prev_etype cur_etype =
    if prev_etype == event_none_type && not (cur_etype == HearTypes.added)
    then false
    else if not (contains cur_etype detectable_controller_hear_types)
    then false
    else if same_object diff_prev diff_cur && cur_etype == HearTypes.updated
    then false
    else true

unfoldable pub detectable_write : Option Fields → Option Fields → String → Bool
unfolding same_object lacks_status contains
detectable_write diff_prev diff_cur cur_etype =
    if not (contains cur_etype detectable_controller_write_types)
    then false
    else if same_object diff_prev diff_cur && is_update_write cur_etype
    then false
    else if lacks_status diff_prev && lacks_status diff_cur && is_status_write cur_etype
    then false
    else true

unfoldable pub detectable_event_diff :
    Bool → Option Fields → Option Fields → String → String → ℕ → Result Bool
unfolding event_diff_validation_check detectable_hear detectable_write
detectable_event_diff recv_event diff_prev diff_cur prev_etype cur_etype signature_counter =
    if ltb 3 signature_counter
    then ok false
    else if recv_event
    then (event_diff_validation_check prev_etype cur_etype
        >> ok (detectable_hear diff_prev diff_cur prev_etype cur_etype))
    else ok (detectable_write diff_prev diff_cur cur_etype)

-- `generate_name is not None and is_generated_random_name(name, generate_name)`
unfoldable pub random_name : String → Option Value → Result Bool
unfolding is_generated_random_name
random_name name none = ok false
random_name name (some v) = do
  generate_name ← as_str v
  ok (is_generated_random_name name generate_name)

-- The arguments after the context are the event's key, name and object.
unfoldable pub nondeterministic_key : TestContext → String → String → Fields → Result Bool
unfolding extract_generate_name random_name get same
nondeterministic_key ctx key name obj_map = do
  generate_name ← extract_generate_name obj_map
  elim (get key ctx.end_state) [
    | none ↦ random_name name generate_name
    | some v ↦ ok (same v (str sieve_learn_value_mask))
  ]
