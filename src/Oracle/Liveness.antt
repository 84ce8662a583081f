-- ===== src/Oracle/Liveness.antt =====
-- `compare_states` of sieve_oracle/liveness_checker.py. The two states are what `json.load` reads;
-- `deep_diff` is what DeepDiff finds between them, one delta after another, and `show` is `str` on
-- values, `show_names` on lists of texts and `show_index` on the indices of lists. The sets are gone
-- through in the order of the states, which the sorts at the end make one order for all.
-- `resource_map` is written and never read, and is left out.
pub mod Keys
use Prim.Native.String
use sieve.Prelude.{
  ℕ, String, ◌<>◌, ◌==◌, Char, code, Bool, true, false, ◌&&◌, ◌||◌, not, List, [], ◌∷◌, ◌++◌, map,
  Option, none, some, Result, ok, err, index_error, attribute_error, assertion_error, ◌>>=◌, pos,
  ltb, leb, nat_eq, length, contains, add_to_set, join, sort, if◌then◌else◌,
}
use sieve.Prelude.Dict.{Dict, lookup, append_at}
use sieve.Json.{Value, num, str, Fields, end, field, has, is_str}
use sieve.Common.{sieve_learn_value_mask, match_mask_regex}
use sieve.Event.Keys.{parse_key, item}
use sieve.Event.Mask.{get_mask_by_resource_key}
use sieve.Delta.Diff.{without_keys}
use sieve.Oracle.Compare.{generate_alarm}
use sieve.Oracle.Masks.{
  StateContext, PathItem, key, index, kind_native_objects, equal_path,
  tranlate_apiserver_shape_to_controller_shape, resource_type_should_be_masked_by_controller_config,
  resource_key_should_be_masked, resource_field_path_should_be_masked,
}

-- A difference: its kind, where it is, and the values there, `none` where there is none.
pub record Delta : Type 0 where
  pub delta_type : String
  pub path : List PathItem
  pub t1 : Option Value
  pub t2 : Option Value

-- The objects of each type in the two states, and the two sets of types.
pub record Objects : Type 0 where
  pub testing_resource_to_object_map : Dict (List String)
  pub reference_resource_to_object_map : Dict (List String)
  pub resource_type_with_random_names : List String
  pub resource_type_masked_by_controller_config : List String

abbrev pub keys_of : Fields → List String
keys_of end = []
keys_of (field k v d) = k ∷ keys_of d

-- The objects with one more key of the testing state, and of the reference state.
unfoldable pub with_testing : String → String → Fields → Objects → Objects
unfolding has append_at
with_testing resource_type resource_key testing o =
    if has resource_key testing
    then record o {
      testing_resource_to_object_map =
          append_at resource_type resource_key o.testing_resource_to_object_map;
    }
    else o

unfoldable pub with_reference : String → String → Fields → Objects → Result Objects
unfolding has append_at item add_to_set
with_reference resource_type resource_key reference o =
    if has resource_key reference
    then (do
      v ← item resource_key reference
      let o' = record o {
        reference_resource_to_object_map =
            append_at resource_type resource_key o.reference_resource_to_object_map;
      }
      ok (
          if is_str sieve_learn_value_mask v
          then record o' {
            resource_type_with_random_names =
                add_to_set resource_type o.resource_type_with_random_names;
          }
          else o'))
    else ok o

unfoldable pub with_masked : Bool → String → Objects → Objects
unfolding add_to_set
with_masked false resource_type o = o
with_masked true resource_type o = record o {
  resource_type_masked_by_controller_config =
      add_to_set resource_type o.resource_type_masked_by_controller_config;
}

module _ (c : StateContext) (reference testing : Fields) where
  unfoldable pub note_key : String → Objects → Result Objects
  unfolding kind_native_objects parse_key resource_type_should_be_masked_by_controller_config
      with_testing with_reference with_masked
  note_key resource_key o = do
    native ← kind_native_objects resource_key
    if native then ok o else (do
      (resource_type, namespace, name) ← parse_key resource_key
      let masked = resource_type_should_be_masked_by_controller_config c resource_type
      with_reference resource_type resource_key reference
          (with_testing resource_type resource_key testing (with_masked masked resource_type o)))

  unfoldable pub note_keys : List String → Objects → Result Objects
  unfolding note_key
  note_keys [] o = ok o
  note_keys (resource_key ∷ keys) o = do o' ← note_key resource_key o; note_keys keys o'

module _ (path_match : String → String → Bool) (c : StateContext) where
  -- The loops over the keys that only one state has.
  unfoldable pub existence_messages :
      List String → String → String → List String → Result (List String)
  unfolding kind_native_objects resource_key_should_be_masked parse_key contains generate_alarm join
  existence_messages random sub_alarm seen [] = ok []
  existence_messages random sub_alarm seen (resource_key ∷ keys) = do
    rest ← existence_messages random sub_alarm seen keys
    native ← kind_native_objects resource_key
    if native then ok rest else (do
      masked ← resource_key_should_be_masked path_match c resource_key
      if masked then ok rest else (do
        (resource_type, namespace, name) ← parse_key resource_key
        let full = join "/" (resource_type ∷ namespace ∷ name ∷ [])
        ok (
            if contains resource_type random
            then rest
            else generate_alarm sub_alarm (full <> (" " <> seen)) ∷ rest)))

abbrev pub objects_at : String → Dict (List String) → List String
objects_at resource_type d = elim (lookup resource_type d) [ none ↦ [] | some keys ↦ keys ]

module _ (show : Option Value → String) (show_names : List String → String) where
  -- The message on a type with random names, of which the two states have different numbers.
  unfoldable pub number_message : String → List String → List String → String
  unfolding generate_alarm sort
  number_message resource_type reference testing =
      generate_alarm
        (if ltb (length reference) (length testing)
          then "End state inconsistency - more objects than reference:"
          else "End state inconsistency - fewer objects than reference:")
        (join " " (
          show (some (num (pos (length reference))))
          ∷ (resource_type <> " object(s)")
          ∷ "seen after reference run"
          ∷ show_names (sort reference)
          ∷ "but"
          ∷ show (some (num (pos (length testing))))
          ∷ (resource_type <> " object(s)")
          ∷ "seen after testing run"
          ∷ show_names (sort testing)
          ∷ []))

  unfoldable pub number_messages : Objects → List String → List String
  unfolding contains lookup number_message
  number_messages o [] = []
  number_messages o (resource_type ∷ types) =
      let rest = number_messages o types in
      let testing = objects_at resource_type o.testing_resource_to_object_map in
      let reference = objects_at resource_type o.reference_resource_to_object_map in
      if contains resource_type o.resource_type_masked_by_controller_config
        || nat_eq (length testing) (length reference)
      then rest
      else number_message resource_type reference testing ∷ rest

-- A value that the reference run, or a mask of texts, leaves open.
abbrev pub is_masked_text : Option Value → Bool
is_masked_text none = false
is_masked_text (some (str s)) = match_mask_regex s
is_masked_text (some v) = false

abbrev pub is_learned_mask : Option Value → Bool
is_learned_mask none = false
is_learned_mask (some v) = is_str sieve_learn_value_mask v

abbrev pub is_change : String → Bool
is_change delta_type = delta_type == "values_changed" || delta_type == "type_changes"

-- `field.isdigit()`, on the digits of ASCII
abbrev pub all_digits : String → Bool
all_digits String.[] = true
all_digits (String.◌∷◌ ch s) = (leb b'0' (code ch) && leb (code ch) b'9') && all_digits s

unfoldable pub is_digit_text : String → Bool
is_digit_text String.[] = false
is_digit_text (String.◌∷◌ ch s) = all_digits (String.◌∷◌ ch s)

abbrev pub key_in_mask : List String → List PathItem → Bool
key_in_mask mask_keys [] = false
key_in_mask mask_keys (index i ∷ path) = key_in_mask mask_keys path
key_in_mask mask_keys (key k ∷ path) = contains k mask_keys || key_in_mask mask_keys path

unfoldable pub any_equal_path : List String → String → Bool
unfolding equal_path
any_equal_path [] path = false
any_equal_path (rule ∷ rules) path = equal_path rule path || any_equal_path rules path

abbrev pub tail_of {ℓ} : {A : Type ℓ} → List A → List A
tail_of [] = []
tail_of (x ∷ xs) = xs

-- What a delta adds to the messages.
pub data Finding : Type 0 where
  nothing : Finding
  existence : String → Finding
  difference : String → Finding

module _ (path_match : String → String → Bool) (show : Option Value → String)
    (show_index : ℕ → String) (c : StateContext) where
  abbrev pub field_text : PathItem → String
  field_text (key k) = k
  field_text (index i) = show_index i

  unfoldable pub field_path_for_print : List String → String
  unfolding is_digit_text
  field_path_for_print [] = ""
  field_path_for_print (f ∷ fields) =
      (if is_digit_text f then "[" <> (f <> "]") else "[\"" <> (f <> "\"]"))
      <> field_path_for_print fields

  -- The branches on the kind of a delta.
  unfoldable pub message_of : Delta → String → String → Result Finding
  unfolding generate_alarm join
  message_of d resource_key fields =
      let place = resource_key <> fields in
      if d.delta_type == "dictionary_item_added" || d.delta_type == "iterable_item_added"
      then ok (
          existence (
            generate_alarm "End state inconsistency - more object fields than reference:" (
              join " " (
                place
                ∷ "not seen after reference run, but is"
                ∷ show d.t2
                ∷ "after testing run"
                ∷ []))))
      else if d.delta_type == "dictionary_item_removed" || d.delta_type == "iterable_item_removed"
      then (let learned = if is_learned_mask d.t1 then "a nondeterministic value" else show d.t1 in
          ok (
            existence (
              generate_alarm "End state inconsistency - fewer object fields than reference:" (
                join " " (
                  place ∷ "is" ∷ learned ∷ "after reference run, but not seen after testing run"
                  ∷ [])))))
      else if is_change d.delta_type
      then ok (
          difference (
            generate_alarm "End state inconsistency - object field has a different value:" (
              join " " (
                place
                ∷ "is"
                ∷ show d.t1
                ∷ "after reference run, but"
                ∷ show d.t2
                ∷ "after testing run"
                ∷ []))))
      else err assertion_error

  -- The tests on the path, once it is translated.
  unfoldable pub judge_path : Delta → String → List PathItem → Result Finding
  unfolding get_mask_by_resource_key any_equal_path resource_key_should_be_masked
      resource_field_path_should_be_masked field_path_for_print message_of join contains
      match_mask_regex
  judge_path d resource_key path = do
    mask_keys ← get_mask_by_resource_key path_match c.field_key_mask resource_key
    mask_paths ← get_mask_by_resource_key path_match c.field_path_mask resource_key
    let fields = map field_text (tail_of path)
    if nat_eq (length path) 1
          || (is_change d.delta_type
              && (is_learned_mask d.t1 || is_masked_text d.t1 || is_masked_text d.t2))
          || key_in_mask mask_keys path
          || (ltb 2 (length path) && any_equal_path mask_paths (join "/" fields))
        then ok nothing
        else (do
          masked ← resource_key_should_be_masked path_match c resource_key
          if masked || resource_field_path_should_be_masked path_match c resource_key fields
              then ok nothing
              else message_of d resource_key (field_path_for_print fields))

  -- The body of the loop over the deltas.
  unfoldable pub judge_delta : Delta → Result Finding
  unfolding kind_native_objects parse_key contains tranlate_apiserver_shape_to_controller_shape
      judge_path
  judge_delta d = elim d.path [
    | [] ↦ err index_error
    | item ∷ rest ↦ elim item [
      | index i ↦ err attribute_error
      | key resource_key ↦ do
        native ← kind_native_objects resource_key
        if native then ok nothing else (do
          (resource_type, namespace, name) ← parse_key resource_key
          judge_path d resource_key (
              if contains resource_type c.custom_resource_definitions
              then d.path
              else tranlate_apiserver_shape_to_controller_shape d.path))
    ]
  ]

-- The messages of the deltas, on fields that differ and on fields that only one state has.
abbrev pub Messages : Type 0
Messages = List String × List String

abbrev pub add_finding : Finding → Messages → Messages
add_finding nothing m = m
add_finding (existence s) m = (m.0, s ∷ m.1)
add_finding (difference s) m = (s ∷ m.0, m.1)

abbrev pub no_objects : Objects
no_objects = record {
  testing_resource_to_object_map = [];
  reference_resource_to_object_map = [];
  resource_type_with_random_names = [];
  resource_type_masked_by_controller_config = [];
}

abbrev pub all_keys : Fields → Fields → List String
all_keys reference testing = keys_of testing ++ keys_of (without_keys reference testing)

abbrev pub only_in_testing : Fields → Fields → List String
only_in_testing reference testing = keys_of (without_keys testing reference)

abbrev pub only_in_reference : Fields → Fields → List String
only_in_reference reference testing = keys_of (without_keys reference testing)

abbrev pub more_objects : String
more_objects = "End state inconsistency - more objects than reference:"

abbrev pub not_in_reference : String
not_in_reference = "is not seen after reference run, but seen after testing run"

abbrev pub fewer_objects : String
fewer_objects = "End state inconsistency - fewer objects than reference:"

abbrev pub not_in_testing : String
not_in_testing = "is seen after reference run, but not seen after testing run"

module _ (path_match : String → String → Bool) (show : Option Value → String)
    (show_names : List String → String) (show_index : ℕ → String) (c : StateContext) where
  unfoldable pub judge_deltas : List Delta → Result Messages
  unfolding judge_delta
  judge_deltas [] = ok ([], [])
  judge_deltas (d ∷ ds) = do
    finding ← judge_delta path_match show show_index c d
    messages ← judge_deltas ds
    ok (add_finding finding messages)

  unfoldable pub compare_states :
      (Fields → Fields → List Delta) → Fields → Fields → Result (List String)
  unfolding note_keys existence_messages number_messages judge_deltas sort without_keys
  compare_states deep_diff reference testing = do
    objects ← note_keys c reference testing (all_keys reference testing) no_objects
    let random = objects.resource_type_with_random_names
    more ←
        existence_messages path_match c random more_objects not_in_reference
          (only_in_testing reference testing)
    fewer ←
        existence_messages path_match c random fewer_objects not_in_testing
          (only_in_reference reference testing)
    messages ← judge_deltas (deep_diff reference testing)
    let numbers = number_messages show show_names objects random
    ok (sort (more ++ fewer ++ numbers) ++ sort messages.0 ++ sort messages.1)
