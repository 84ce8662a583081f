-- ===== src/Oracle/Family.antt =====
-- `generate_controller_related_list` of sieve_oracle/checker_common.py: the objects that are tied to
-- the controller's pod by owner references. The uids of an event are read once, in front of the
-- loops that use them; a set of uids is a list, and a uid that is `None` is `none`.
pub mod Closure
pub mod Fuel
pub mod Members
use sieve.Prelude.{
  ℕ, zero, suc, String, ◌==◌, Bool, true, false, ◌&&◌, ◌||◌, List, [], ◌∷◌, ◌++◌, Option, none,
  some, not, length, Result, ok, err, type_error, ◌>>=◌, contains, map_result, if◌then◌else◌,
  insert_sorted,
}
use sieve.Json.{Value, null, bool, num, str, list, dict, Items, nil, cons, Fields, get, has}
use sieve.Event.Keys.{item, as_dict}
use sieve.Event.Records.{ApiEvent}
use sieve.Oracle.Log.{api_events}

abbrev pub Uid : Type 0
Uid = Option String

unfoldable pub uid_eq : Uid → Uid → Bool
uid_eq none none = true
uid_eq (some a) (some b) = a == b
uid_eq _ _ = false

-- `uid in uids`
unfoldable pub has_uid : Uid → List Uid → Bool
unfolding uid_eq
has_uid u [] = false
has_uid u (v ∷ vs) = uid_eq v u || has_uid u vs

-- `APIEvent.get_metadata_value`; where the value is `None`, so is the result.
unfoldable pub get_metadata_value : String → Fields → Result (Option Value)
unfolding has get item
get_metadata_value mkey obj_map =
    if has mkey obj_map
    then ok (get mkey obj_map)
    else if has "metadata" obj_map
    then (do m ← item "metadata" obj_map; d ← as_dict m; ok (get mkey d))
    else ok none

abbrev pub as_uid : Option Value → Result Uid
as_uid none = ok none
as_uid (some null) = ok none
as_uid (some (str s)) = ok (some s)
as_uid (some _) = err type_error

-- `owner_reference["uid"]` for each reference of a list
unfoldable pub owner_uids : Items → Result (List Uid)
unfolding item
owner_uids nil = ok []
owner_uids (cons v vs) = do
  owner ← as_dict v
  uid_value ← item "uid" owner
  uid ← as_uid (some uid_value)
  rest ← owner_uids vs
  ok (uid ∷ rest)

abbrev pub as_items : Value → Result Items
as_items (list xs) = ok xs
as_items _ = err type_error

-- What the loops read of an event: its uid, and those of its owners. Without references the loops
-- skip the event, as they do where the list of references is empty.
pub record Node : Type 0 where
  pub uid : Uid
  pub owners : List Uid

unfoldable pub owners_of : Option Value → Result (List Uid)
unfolding owner_uids
owners_of none = ok []
owners_of (some null) = ok []
owners_of (some v) = do xs ← as_items v; owner_uids xs

unfoldable pub node_of : ApiEvent → Result Node
unfolding get_metadata_value owners_of
node_of e = do
  uid_value ← get_metadata_value "uid" e.obj_map
  uid ← as_uid uid_value
  references ← get_metadata_value "ownerReferences" e.obj_map
  owners ← owners_of references
  ok record { uid = uid; owners = owners }

-- `"labels" in obj and "sievetag" in obj["labels"]`
unfoldable pub is_tagged : Fields → Result Bool
unfolding has item
is_tagged obj =
    if has "labels" obj
    then (do labels ← item "labels" obj; d ← as_dict labels; ok (has "sievetag" d))
    else ok false

-- The first loop: a pod of the controller gives its uid and those of its owners.
unfoldable pub seeds_of : ApiEvent → Result (List Uid)
unfolding is_tagged item owner_uids
seeds_of e =
    if e.rtype == "pod"
    then (do
      tagged ← is_tagged e.obj_map
      if tagged
          then (do
            uid_value ← item "uid" e.obj_map
            uid ← as_uid (some uid_value)
            references ← item "ownerReferences" e.obj_map
            xs ← as_items references
            owners ← owner_uids xs
            ok (uid ∷ owners))
          else ok [])
    else ok []

unfoldable pub seeds : List ApiEvent → Result (List Uid)
unfolding seeds_of
seeds [] = ok []
seeds (e ∷ es) = do first ← seeds_of e; rest ← seeds es; ok (first ++ rest)

-- The set of uids, and `keep_tainting`.
abbrev pub Taint : Type 0
Taint = List Uid × Bool

-- The loop over the owners of an object of the family.
unfoldable pub add_owner : Uid → Taint → Taint
unfolding has_uid
add_owner o t = if has_uid o t.0 then t else (o ∷ t.0, true)

unfoldable pub taint_owners : List Uid → Taint → Taint
unfolding add_owner
taint_owners [] t = t
taint_owners (o ∷ os) t = taint_owners os (add_owner o t)

-- The loop over the owners of another object.
unfoldable pub add_owned : Uid → Uid → Taint → Taint
unfolding has_uid
add_owned uid o t = if has_uid o t.0 then (uid ∷ t.0, true) else t

unfoldable pub taint_self : Uid → List Uid → Taint → Taint
unfolding add_owned
taint_self uid [] t = t
taint_self uid (o ∷ os) t = taint_self uid os (add_owned uid o t)

unfoldable pub taint_event : Node → Taint → Taint
unfolding has_uid taint_owners taint_self
taint_event n t = if has_uid n.uid t.0 then taint_owners n.owners t else taint_self n.uid n.owners t

-- A round of the `while` loop, which starts with `keep_tainting = False`.
unfoldable pub taint_round : List Node → Taint → Taint
unfolding taint_event
taint_round [] t = t
taint_round (n ∷ ns) t = taint_round ns (taint_event n t)

unfoldable pub taint : ℕ → List Node → List Uid → Option (List Uid)
unfolding taint_round
taint zero ns s = none
taint (suc fuel) ns s = elim (taint_round ns (s, false)).1 [
  | true ↦ taint fuel ns (taint_round ns (s, false)).0
  | false ↦ some (taint_round ns (s, false)).0
]

-- Every uid that the loop can add, which bounds its rounds.
unfoldable pub all_uids : List Node → List Uid
all_uids [] = []
all_uids (n ∷ ns) = (n.uid ∷ n.owners) ++ all_uids ns

-- The last loop and the sort: the keys of the events whose uid is in the set, each once.
unfoldable pub related_keys : List Uid → List (ApiEvent × Node) → List String
unfolding has_uid contains insert_sorted
related_keys s [] = []
related_keys s (e ∷ es) =
    let rest = related_keys s es in
    if has_uid e.1.uid s && not (contains e.0.key rest) then insert_sorted e.0.key rest else rest

unfoldable pub with_node : ApiEvent → Result (ApiEvent × Node)
unfolding node_of
with_node e = do n ← node_of e; ok (e, n)

abbrev pub nodes : List (ApiEvent × Node) → List Node
nodes [] = []
nodes (e ∷ es) = e.1 ∷ nodes es

-- The fuel of the `while` loop is one more than the uids that it can add.
unfoldable pub related_uids : List Node → List Uid → List Uid
unfolding taint all_uids
related_uids ns s = elim (taint (suc (length (all_uids ns))) ns s) [ none ↦ s | some t ↦ t ]

unfoldable pub generate_controller_related_list :
    (String → Result Value) → List String → Result (List String)
unfolding api_events seeds map_result with_node related_uids related_keys
generate_controller_related_list loads lines = do
  events ← api_events loads lines
  s ← seeds events
  es ← map_result with_node events
  ok (related_keys (related_uids (nodes es) s) es)
