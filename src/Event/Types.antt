-- ===== src/Event/Types.antt =====
-- Questions about event types, from sieve_common/k8s_event.py.
use sieve.Prelude.{String, Bool, not, ◌==◌, ◌&&◌, ◌||◌}
use sieve.Event.HearTypes
use sieve.Event.WriteTypes

abbrev pub event_none_type : String
event_none_type = "NONE_TYPE"

unfoldable pub consistent_event_type : String → String → Bool
consistent_event_type hear_type write_type =
    let both_create = hear_type == HearTypes.added && write_type == WriteTypes.create in
    let both_update =
      hear_type == HearTypes.updated
      && (write_type == WriteTypes.update
          || write_type == WriteTypes.patch
          || write_type == WriteTypes.status_update
          || write_type == WriteTypes.status_patch) in
    let both_delete = hear_type == HearTypes.deleted && write_type == WriteTypes.delete in
    both_create || both_update || both_delete

unfoldable pub conflicting_event_type : String → String → Bool
conflicting_event_type prev_type cur_type =
    let other_then_delete = not (prev_type == HearTypes.deleted) && cur_type == HearTypes.deleted in
    let delete_then_other = prev_type == HearTypes.deleted && not (cur_type == HearTypes.deleted) in
    other_then_delete || delete_then_other

unfoldable pub is_creation_or_deletion : String → Bool
is_creation_or_deletion etype =
    (etype == HearTypes.added || etype == HearTypes.deleted)
    || (etype == WriteTypes.create || etype == WriteTypes.delete)
