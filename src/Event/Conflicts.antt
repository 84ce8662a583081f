-- ===== src/Event/Conflicts.antt =====
-- `conflicting_event` and `get_event_signature` of sieve_common/k8s_event.py. `json.dumps` with
-- sorted keys is the parameter `dumps`.
use sieve.Prelude.{
  String, ◌==◌, ◌≡◌, refl, Bool, true, false, not, ◌&&◌, ◌||◌, List, [], ◌∷◌, Option, some, join,
  arith, if◌then◌else◌,
}
use sieve.Json.{Fields}
use sieve.Json.Unique.{UniqueFields}
use sieve.Delta.Part.{diff_event, conflicting_event_payload}
use sieve.Delta.Conflict.{conflicting_event_payload-diff_event}
use sieve.Event.HearTypes
use sieve.Event.Types.{conflicting_event_type, is_creation_or_deletion}
use sieve.Event.Records.{ControllerHear}

unfoldable pub conflicting_event :
    ControllerHear → ControllerHear → List String → List String → Bool
unfolding conflicting_event_type conflicting_event_payload
conflicting_event prev cur masked_keys masked_paths =
    if conflicting_event_type prev.etype cur.etype
    then true
    else if not (prev.etype == HearTypes.deleted)
        && not (cur.etype == HearTypes.deleted)
        && conflicting_event_payload prev.slim_cur_obj_map cur.obj_map masked_keys masked_paths
    then true
    else false

-- The arguments are the fields of a hear or a write that the signature is made of.
unfoldable pub get_event_signature :
    (Option Fields → String) → String → Option Fields → Option Fields → String
unfolding is_creation_or_deletion join
get_event_signature dumps etype slim_prev_obj_map slim_cur_obj_map =
    if is_creation_or_deletion etype
    then etype
    else join "\t" (etype ∷ dumps slim_prev_obj_map ∷ dumps slim_cur_obj_map ∷ [])

same_type : (t : Bool) → not t && t || t && not t ≡ false
same_type true = refl
same_type false = refl

-- A hear does not conflict with another one of the same type, if what the first shows of its object
-- is the current half of the difference of the other's object from an earlier object, under the same
-- masks, and the dicts of these two objects hold each key once, at every depth.
pub conflicting_event_same :
    (masked_keys masked_paths : List String) (earlier a b : Fields) (prev cur : ControllerHear)
    → UniqueFields earlier
    → UniqueFields cur.obj_map
    → prev.etype ≡ cur.etype
    → prev.slim_cur_obj_map ≡ some b
    → diff_event earlier cur.obj_map masked_keys masked_paths false true ≡ some (a, b)
    → conflicting_event prev cur masked_keys masked_paths ≡ false
unfolding conflicting_event conflicting_event_type
conflicting_event_same masked_keys masked_paths earlier a b prev cur u v t s d = ground (
  arith,
  same_type (cur.etype == HearTypes.deleted),
  conflicting_event_payload-diff_event masked_keys masked_paths earlier cur.obj_map a b u v d,
)
