-- ===== src/Oracle/Masks.antt =====
-- The tests of sieve_oracle/liveness_checker.py and checker_common.py that say which objects and
-- fields the comparison of end states leaves out. `path_match` is `PurePath(path).match(pattern)`.
pub mod Paths
use Prim.Native.String
use sieve.Prelude.{
  ℕ, String, ◌<>◌, ◌==◌, Bool, true, false, ◌&&◌, ◌||◌, List, [], ◌∷◌, ◌++◌, Result, ok, ◌>>=◌,
  nat_eq, contains, join, split, lower_first, starts_with, if◌then◌else◌,
}
use sieve.Prelude.Dict.{Dict}
use sieve.Event.Keys.{parse_key}
use sieve.Event.Mask.{MaskMap, key_matches}

-- What the oracle reads of the test context, its configurations, and the two lists of objects that
-- belong to the controller, of the testing run and of the reference run.
pub record StateContext : Type 0 where
  pub test_workload : String
  pub end_state_checker_mask : Dict MaskMap
  pub custom_resource_definitions : List String
  pub field_key_mask : MaskMap
  pub field_path_mask : MaskMap
  pub current_controller_family : List String
  pub reference_controller_family : List String

-- Objects that Kubernetes itself creates.
unfoldable pub is_native : String → String → Bool
is_native rtype name =
    if rtype == "endpoints" && name == "kubernetes"
    then true
    else if rtype == "secret" && starts_with name "default-token-" && nat_eq (String.count name) 19
    then true
    else if rtype == "serviceaccount" && name == "default"
    then true
    else if rtype == "service" && name == "kubernetes"
    then true
    else if rtype == "endpointslice" && name == "kubernetes"
    then true
    else false

unfoldable pub kind_native_objects : String → Result Bool
unfolding parse_key is_native
kind_native_objects key = do (rtype, ns, name) ← parse_key key; ok (is_native rtype name)

-- The loop of `equal_path`, over the parts of the two paths.
unfoldable pub equal_parts : List String → List String → Bool
equal_parts [] value = true
equal_parts (t ∷ template) [] = false
equal_parts (t ∷ template) (v ∷ value) = (t == "*" || t == v) && equal_parts template value

unfoldable pub equal_path : String → String → Bool
unfolding split equal_parts
equal_path template value = equal_parts (split b'/' template) (split b'/' value)

-- A step of a path into a value: a key of a dict or an index of a list.
pub data PathItem : Type 0 where
  key : String → PathItem
  index : ℕ → PathItem

abbrev pub metadata_fields : List String
metadata_fields =
    "name" ∷ "generateName" ∷ "namespace" ∷ "selfLink" ∷ "uid" ∷ "resourceVersion" ∷ "generation"
    ∷ "creationTimestamp" ∷ "deletionTimestamp" ∷ "deletionGracePeriodSeconds" ∷ "labels"
    ∷ "annotations" ∷ "ownerReferences" ∷ "finalizers" ∷ "clusterName" ∷ "managedFields" ∷ []

-- Up to a step that starts with `SIEVE`, every key starts with a small letter.
unfoldable pub lower_keys : List PathItem → List PathItem
unfolding lower_first
lower_keys [] = []
lower_keys (index i ∷ path) = index i ∷ lower_keys path
lower_keys (key k ∷ path) =
    let rest = lower_keys path in
    if starts_with k "SIEVE" then key k ∷ path else key (lower_first k) ∷ rest

abbrev pub is_metadata_field : PathItem → Bool
is_metadata_field (index i) = false
is_metadata_field (key k) = contains k metadata_fields

unfoldable pub tranlate_apiserver_shape_to_controller_shape : List PathItem → List PathItem
unfolding contains lower_keys
tranlate_apiserver_shape_to_controller_shape [] = []
tranlate_apiserver_shape_to_controller_shape (first ∷ []) = first ∷ []
tranlate_apiserver_shape_to_controller_shape (first ∷ second ∷ path) =
    if is_metadata_field second
    then first ∷ key "metadata" ∷ second ∷ path
    else first ∷ lower_keys (second ∷ path)

-- `test_workload == test_context.test_workload or test_workload == "*"`
abbrev pub is_for : StateContext → String → Bool
is_for c test_workload = test_workload == c.test_workload || test_workload == "*"

abbrev pub is_empty {ℓ} : {A : Type ℓ} → List A → Bool
is_empty [] = true
is_empty (x ∷ xs) = false

-- `"{}/*/*".format(resource_type)`, masked with all its fields
unfoldable pub type_in : String → MaskMap → Bool
type_in resource_type [] = false
type_in resource_type ((masked_resource_key, paths) ∷ mask) =
    (masked_resource_key == (resource_type <> "/*/*") && is_empty paths)
    || type_in resource_type mask

unfoldable pub type_masked : StateContext → String → Dict MaskMap → Bool
unfolding type_in
type_masked c resource_type [] = false
type_masked c resource_type ((test_workload, mask) ∷ masks) =
    (is_for c test_workload && type_in resource_type mask) || type_masked c resource_type masks

unfoldable pub resource_type_should_be_masked_by_controller_config : StateContext → String → Bool
unfolding type_masked
resource_type_should_be_masked_by_controller_config c resource_type =
    type_masked c resource_type c.end_state_checker_mask

module _ (path_match : String → String → Bool) where
  -- An object whose key a pattern masks with all its fields.
  unfoldable pub key_in : String → MaskMap → Bool
  key_in resource_key [] = false
  key_in resource_key ((masked_resource_key, paths) ∷ mask) =
      (key_matches path_match resource_key masked_resource_key && is_empty paths)
      || key_in resource_key mask

  unfoldable pub key_masked : StateContext → String → Dict MaskMap → Bool
  unfolding key_in
  key_masked c resource_key [] = false
  key_masked c resource_key ((test_workload, mask) ∷ masks) =
      (is_for c test_workload && key_in resource_key mask) || key_masked c resource_key masks

  unfoldable pub resource_key_should_be_masked : StateContext → String → Result Bool
  unfolding parse_key contains key_masked
  resource_key_should_be_masked c resource_key = do
    (resource_type, namespace, name) ← parse_key resource_key
    ok (
        if name == "sieve-testing-global-config"
        then true
        else if contains resource_key c.current_controller_family
            || contains resource_key c.reference_controller_family
        then true
        else key_masked c resource_key c.end_state_checker_mask)

  -- Whether a masked path matches one of the prefixes of a field's path; `prefix` is the part that the
  -- loop has been through.
  unfoldable pub prefix_matches : String → List String → List String → Bool
  unfolding join
  prefix_matches masked_path_str prefix [] = false
  prefix_matches masked_path_str prefix (field ∷ fields) =
      let prefix_str = join "/" (prefix ++ (field ∷ [])) in
      key_matches path_match prefix_str masked_path_str
      || prefix_matches masked_path_str (prefix ++ (field ∷ [])) fields

  unfoldable pub field_in_paths : List String → List (List String) → Bool
  unfolding join prefix_matches
  field_in_paths field_path_list [] = false
  field_in_paths field_path_list (masked_path ∷ paths) =
      prefix_matches (join "/" masked_path) [] field_path_list
      || field_in_paths field_path_list paths

  unfoldable pub field_in : String → List String → MaskMap → Bool
  unfolding field_in_paths
  field_in resource_key field_path_list [] = false
  field_in resource_key field_path_list ((masked_resource_key, paths) ∷ mask) =
      (key_matches path_match resource_key masked_resource_key
        && field_in_paths field_path_list paths)
      || field_in resource_key field_path_list mask

  unfoldable pub field_masked : StateContext → String → List String → Dict MaskMap → Bool
  unfolding field_in
  field_masked c resource_key field_path_list [] = false
  field_masked c resource_key field_path_list ((test_workload, mask) ∷ masks) =
      (is_for c test_workload && field_in resource_key field_path_list mask)
      || field_masked c resource_key field_path_list masks

  unfoldable pub resource_field_path_should_be_masked : StateContext → String → List String → Bool
  unfolding field_masked
  resource_field_path_should_be_masked c resource_key field_path_list =
      field_masked c resource_key field_path_list c.end_state_checker_mask
