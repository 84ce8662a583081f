-- ===== src/Event/Keys.antt =====
-- Resource keys, and what the events read from an object's metadata (sieve_common/k8s_event.py).
use Prim.Native.String
use sieve.Prelude.{
  String, Bool, ◌&&◌, ◌+◌, List, [], ◌∷◌, Option, none, some, Result, ok, err, key_error,
  type_error, assertion_error, from_option, check, ◌>>=◌, ◌>>◌, join, split, nat_eq, starts_with,
  if◌then◌else◌,
}
use sieve.Json.{Value, str, dict, Fields, get, has}

unfoldable pub generate_key : String → String → String → String
unfolding join
generate_key resource_type namespace name = join "/" (resource_type ∷ namespace ∷ name ∷ [])

abbrev pub three : List String → Result (String × String × String)
three (a ∷ b ∷ c ∷ []) = ok (a, b, c)
three _ = err assertion_error

-- The assertion holds for the lists of three tokens.
unfoldable pub parse_key : String → Result (String × String × String)
unfolding split
parse_key key = three (split b'/' key)

-- `obj[key]`
unfoldable pub item : String → Fields → Result Value
unfolding get
item key obj = from_option key_error (get key obj)

-- A value that is used as a dict, and one that is used as a text.
abbrev pub as_dict : Value → Result Fields
as_dict (dict d) = ok d
as_dict _ = err type_error

abbrev pub as_str : Value → Result String
as_str (str s) = ok s
as_str _ = err type_error

unfoldable pub metadata : Fields → Result Fields
unfolding item has
metadata obj = do check (has "metadata" obj); m ← item "metadata" obj; as_dict m

unfoldable pub extract_uid : Fields → Result (Option Value)
unfolding metadata get
extract_uid obj = do m ← metadata obj; ok (get "uid" m)

-- `metadata["namespace"] if "namespace" in metadata else "default"`
unfoldable pub namespace_or_default : Fields → Result String
unfolding get
namespace_or_default m = elim (get "namespace" m) [ none ↦ ok "default" | some v ↦ as_str v ]

unfoldable pub extract_name : Fields → Result String
unfolding metadata item
extract_name obj = do m ← metadata obj; name ← item "name" m; as_str name

unfoldable pub extract_namespace_name : Fields → Result (String × String)
unfolding metadata item namespace_or_default
extract_namespace_name obj = do
  m ← metadata obj
  name ← item "name" m
  namespace ← namespace_or_default m
  name_text ← as_str name
  ok (namespace, name_text)

unfoldable pub extract_generate_name : Fields → Result (Option Value)
unfolding item has get
extract_generate_name obj =
    if has "metadata" obj
    then (do v ← item "metadata" obj; m ← as_dict v; ok (get "generateName" m))
    else ok (get "generateName" obj)

unfoldable pub is_generated_random_name : String → String → Bool
is_generated_random_name name generate_name =
    starts_with name generate_name && nat_eq (String.count name) (String.count generate_name + 5)
