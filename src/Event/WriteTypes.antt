-- ===== src/Event/WriteTypes.antt =====
-- `ControllerWriteTypes` of sieve_common/k8s_event.py, and the types that a test plan can react to.
use sieve.Prelude.{String, List, [], ◌∷◌}

abbrev pub create : String
create = "Create"

abbrev pub update : String
update = "Update"

abbrev pub delete : String
delete = "Delete"

abbrev pub deleteallof : String
deleteallof = "DeleteAllOf"

abbrev pub patch : String
patch = "Patch"

abbrev pub status_update : String
status_update = "StatusUpdate"

abbrev pub status_patch : String
status_patch = "StatusPatch"

abbrev pub detectable_controller_write_types : List String
detectable_controller_write_types =
    create ∷ update ∷ delete ∷ patch ∷ status_update ∷ status_patch ∷ []
