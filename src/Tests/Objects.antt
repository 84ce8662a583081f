-- ===== src/Tests/Objects.antt =====
-- Two versions of an object: their differences, masks, conflicts and keys.
use sieve.Prelude.{
  contains, ends_with_code, ℕ, String, ◌≡◌, refl, ◌↔◌, inl, inr, true, false, List, [], ◌∷◌, none,
  some, ok, pos,
}
use sieve.Prelude.Split.{has_code}
use sieve.Common.{match_mask_regex}
use sieve.Json.{
  keys_within, null, num, str, list, dict, nil, cons, Fields, end, field, has, same, get,
}
use sieve.Json.Unique.{UniqueFields}
use sieve.Delta.Diff.{diff_event_as_map, diff_event_as_list}
use sieve.Delta.Canonical.{path_join, canonicalize_event}
use sieve.Delta.Part.{diff_event, part_of_event_as_map, conflicting_event_payload}
use sieve.Oracle.Masks.{PathItem, key, index}
use sieve.Oracle.Trim.{item_at, get_path}
use sieve.Delta.Masking.Paths.{
  IsOpen, is_masked_step, joined_all, masked_scalar, canonicalize_event-IsOpen,
  canonicalize_event-is_masked_step,
}
use sieve.Delta.Same.{diff_event_as_map-none, diff_event_as_list-none}
use sieve.Delta.Parts.{diff_event_as_map-parts}
use sieve.Delta.Conflict.{AgreeFields, diff_event-Agree, conflicting_event_payload-diff_event}
use sieve.Event.Keys.{generate_key, parse_key}
use sieve.Event.KeyLaws.{parse_key-generate_key, generate_key-parse_key}

-- Two versions of an object.
abbrev metadata_of : String → Fields
metadata_of uid = field "name" (str "web") (field "uid" (str uid) end)

abbrev old_pod : Fields
old_pod =
    field "metadata" (dict (metadata_of "1"))
      (field "spec" (dict (field "replicas" (num (pos 2)) (field "image" (str "a") end))) end)

abbrev new_pod : Fields
new_pod =
    field "metadata" (dict (metadata_of "2"))
      (field "spec" (dict (field "replicas" (num (pos 3)) (field "image" (str "a") end))) end)

-- The second version but for what is masked.
abbrev same_pod : Fields
same_pod =
    field "metadata" (dict (metadata_of "3"))
      (field "spec" (dict (field "replicas" (num (pos 3)) (field "image" (str "b") end))) end)

abbrev masked_keys : List String
masked_keys = "uid" ∷ []

abbrev masked_paths : List String
masked_paths = "spec/image" ∷ []

old_pod-Unique : UniqueFields old_pod
unfolding has
old_pod-Unique = (refl, (refl, tt, (refl, tt, tt)), (refl, (refl, tt, (refl, tt, tt)), tt))

new_pod-Unique : UniqueFields new_pod
unfolding has
new_pod-Unique = (refl, (refl, tt, (refl, tt, tt)), (refl, (refl, tt, (refl, tt, tt)), tt))

-- An event with an address in a list, and with a key and a path that are masked.
abbrev event : Fields
event = field "metadata" (dict (metadata_of "1")) (
    field "status" (dict (field "ips" (list (cons (str "10.0.0.1") (cons (str "none") nil))) end))
      (field "spec" (dict (field "image" (dict (field "name" (str "a") end)) end)) end))

abbrev first_ip : List PathItem
first_ip = key "status" ∷ key "ips" ∷ index 0 ∷ []

first_ip-IsOpen : IsOpen masked_keys masked_paths "" first_ip
unfolding contains path_join ends_with_code
first_ip-IsOpen = (refl, (refl, (refl, tt)))

first_ip_found : get_path first_ip (dict event) ≡ ok (str "10.0.0.1")
unfolding get_path get item_at
first_ip_found = refl

first_ip_masked : masked_scalar (str "10.0.0.1") ≡ some (str "SIEVE-NON-NIL")
unfolding match_mask_regex
first_ip_masked = refl

canonicalize_event-IsOpen_example :
    get_path first_ip (dict (canonicalize_event masked_keys masked_paths event))
    ≡ ok (str "SIEVE-NON-NIL")
canonicalize_event-IsOpen_example =
    canonicalize_event-IsOpen masked_keys masked_paths event first_ip (str "10.0.0.1")
      (str "SIEVE-NON-NIL") first_ip-IsOpen first_ip_found first_ip_masked

spec-IsOpen : IsOpen masked_keys masked_paths "" (key "spec" ∷ [])
unfolding contains path_join ends_with_code
spec-IsOpen = (refl, tt)

image_masked :
    is_masked_step masked_keys masked_paths (joined_all "" (key "spec" ∷ [])) (key "image") ≡ true
unfolding contains path_join ends_with_code
image_masked = refl

image_found :
    get_path (key "spec" ∷ key "image" ∷ []) (dict event) ≡ ok (dict (field "name" (str "a") end))
unfolding get_path get
image_found = refl

canonicalize_event-is_masked_step_example :
    get_path
      (key "spec" ∷ key "image" ∷ [])
      (dict (canonicalize_event masked_keys masked_paths event))
    ≡ ok (str "SIEVE-NON-NIL")
canonicalize_event-is_masked_step_example =
    canonicalize_event-is_masked_step masked_keys masked_paths event (key "spec" ∷ []) (key "image")
      (dict (field "name" (str "a") end)) spec-IsOpen image_masked image_found

diff_event_as_map-none_example :
    (diff_event_as_map old_pod new_pod ≡ none) ↔ (same (dict old_pod) (dict new_pod) ≡ true)
diff_event_as_map-none_example = diff_event_as_map-none old_pod new_pod

diff_event_as_list-none_example :
    (diff_event_as_list (cons null nil) (cons (str "a") nil) ≡ none)
    ↔ (same (list (cons null nil)) (list (cons (str "a") nil)) ≡ true)
diff_event_as_list-none_example = diff_event_as_list-none (cons null nil) (cons (str "a") nil)

-- What the difference of the two versions shows of each.
abbrev shown : String → ℕ → Fields
shown uid n =
    field "metadata" (dict (field "uid" (str uid) end))
      (field "spec" (dict (field "replicas" (num (pos n)) end)) end)

abbrev replicas : ℕ → Fields
replicas n = field "spec" (dict (field "replicas" (num (pos n)) end)) end

diff_of_pods : diff_event_as_map old_pod new_pod ≡ some (shown "1" 2, shown "2" 3)
unfolding diff_event_as_map get same has
diff_of_pods = refl

diff_event_as_map-parts_example :
    (part_of_event_as_map (shown "1" 2) old_pod ≡ true)
    × (part_of_event_as_map (shown "2" 3) new_pod ≡ true)
diff_event_as_map-parts_example =
    diff_event_as_map-parts old_pod new_pod (shown "1" 2) (shown "2" 3) old_pod-Unique
      new_pod-Unique diff_of_pods

pods-Agree : AgreeFields masked_keys masked_paths new_pod same_pod ""
unfolding path_join contains ends_with_code
pods-Agree = (
  refl,
  inr (refl, inr refl, (refl, inl refl, tt)),
  (refl, inr (refl, inr refl, (refl, inl refl, tt)), tt),
)

diff_event-Agree_example : diff_event new_pod same_pod masked_keys masked_paths false true ≡ none
diff_event-Agree_example =
    diff_event-Agree masked_keys masked_paths new_pod same_pod new_pod-Unique pods-Agree

diff_of_masked :
    diff_event old_pod new_pod masked_keys masked_paths false true ≡ some (replicas 2, replicas 3)
unfolding diff_event get ends_with_code same match_mask_regex has
diff_of_masked = refl

conflicting_event_payload-diff_event_example :
    conflicting_event_payload (some (replicas 3)) new_pod masked_keys masked_paths ≡ false
conflicting_event_payload-diff_event_example =
    conflicting_event_payload-diff_event masked_keys masked_paths old_pod new_pod (replicas 2)
      (replicas 3) old_pod-Unique new_pod-Unique diff_of_masked

old_conflicts :
    conflicting_event_payload (some (replicas 3)) old_pod masked_keys masked_paths ≡ true
unfolding conflicting_event_payload keys_within has get same ends_with_code match_mask_regex
old_conflicts = refl

parse_key-generate_key_example :
    parse_key (generate_key "pod" "default" "web") ≡ ok ("pod", "default", "web")
unfolding has_code
parse_key-generate_key_example = parse_key-generate_key "pod" "default" "web" refl refl refl

parsed : parse_key "pod/default/web" ≡ ok ("pod", "default", "web")
unfolding parse_key
parsed = refl

generate_key-parse_key_example : generate_key "pod" "default" "web" ≡ "pod/default/web"
generate_key-parse_key_example =
    generate_key-parse_key "pod/default/web" "pod" "default" "web" parsed
