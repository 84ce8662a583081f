-- ===== src/Event/ApiTypes.antt =====
-- `APIEventTypes` of sieve_common/k8s_event.py.
use sieve.Prelude.{String}

abbrev pub added : String
added = "ADDED"

abbrev pub modified : String
modified = "MODIFIED"

abbrev pub deleted : String
deleted = "DELETED"
