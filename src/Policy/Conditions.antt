-- ===== src/Policy/Conditions.antt =====
-- The parts that the test plans of the three policies share. A plan is the dict that the source
-- builds; `json.dumps(…, sort_keys=True)` is the parameter `dumps`.
use sieve.Prelude.{ℕ, String, ◌==◌, List, [], ◌∷◌, ◌++◌, Option, pos, if◌then◌else◌}
use sieve.Json.{Value, num, str, list, dict, Items, nil, cons, Fields, end, field}

-- A dict and a list, written out.
abbrev pub fields_of : List (String × Value) → Fields
fields_of [] = end
fields_of ((k, v) ∷ kvs) = field k v (fields_of kvs)

abbrev pub items_of : List Value → Items
items_of [] = nil
items_of (v ∷ vs) = cons v (items_of vs)

abbrev pub object : List (String × Value) → Value
object kvs = dict (fields_of kvs)

abbrev pub array : List Value → Value
array vs = list (items_of vs)

abbrev pub int_value : ℕ → Value
int_value n = num (pos n)

abbrev pub observation_point : String → String → Value
observation_point at by = object (("when", str at) ∷ ("by", str by) ∷ [])

abbrev pub trigger_definition : String → Value → Value → Value
trigger_definition name condition point =
    object (("triggerName", str name) ∷ ("condition", condition) ∷ ("observationPoint", point) ∷ [])

abbrev pub trigger : List Value → String → Value
trigger definitions expression =
    object (("definitions", array definitions) ∷ ("expression", str expression) ∷ [])

abbrev pub plan : String → List Value → Value
plan workload actions = object (("workload", str workload) ∷ ("actions", array actions) ∷ [])

-- A condition on a key that has no differences: a creation, or a deletion.
abbrev pub occurrence_condition : String → String → ℕ → Value
occurrence_condition condition_type resource_key occurrence = object (
    ("conditionType", str condition_type)
    ∷ ("resourceKey", str resource_key)
    ∷ ("occurrence", int_value occurrence)
    ∷ [])

module _ (dumps : Option Fields → String) where
  -- A condition on an update; `extra` stands before the occurrence.
  abbrev pub update_condition :
      String → Option Fields → Option Fields → List (String × Value) → ℕ → Value
  update_condition resource_key prev cur extra occurrence = object (
      ("conditionType", str "onObjectUpdate")
      ∷ ("resourceKey", str resource_key)
      ∷ ("prevStateDiff", str (dumps prev))
      ∷ ("curStateDiff", str (dumps cur))
      ∷ (extra ++ (("occurrence", int_value occurrence) ∷ [])))

  -- The condition of all three policies: by whether the event creates, deletes or updates.
  abbrev pub event_condition :
      String
      → String
      → String
      → String
      → Option Fields
      → Option Fields
      → List (String × Value)
      → ℕ
      → Value
  event_condition create delete etype resource_key prev cur extra occurrence =
      if etype == create
      then occurrence_condition "onObjectCreate" resource_key occurrence
      else if etype == delete
      then occurrence_condition "onObjectDelete" resource_key occurrence
      else update_condition resource_key prev cur extra occurrence
