-- ===== src/Event/HearTypes.antt =====
-- `ControllerHearTypes` of sieve_common/k8s_event.py, and the types that a test plan can react to.
use sieve.Prelude.{String, List, [], ◌∷◌}

abbrev pub added : String
added = "Added"

abbrev pub updated : String
updated = "Updated"

abbrev pub deleted : String
deleted = "Deleted"

abbrev pub replaced : String
replaced = "Replaced"

abbrev pub sync : String
sync = "Sync"

abbrev pub detectable_controller_hear_types : List String
detectable_controller_hear_types = added ∷ updated ∷ deleted ∷ []
