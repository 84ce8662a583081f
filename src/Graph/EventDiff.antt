-- ===== src/Graph/EventDiff.antt =====
-- `compute_event_diff` and `finalize` of sieve_analyzer/event_graph.py: what each hear changed of its
-- object since the hear before, what each write changed of the object that its reconcile has read,
-- and how often the same change was seen. `dumps` is `json.dumps` with sorted keys.
pub mod Frame
use sieve.Prelude.{
  ℕ, zero, suc, ◌+◌, String, ◌<>◌, ◌==◌, ◌≡◌, refl, sym, ap, ◌∙◌, Bool, true, false, ◌&&◌, List, [],
  ◌∷◌, map, Option, none, some, Result, ok, err, attribute_error, check, ◌>>=◌, ◌>>◌, Ensures,
  Ensures-ok, Ensures-bind, Ensures-map, ℤ, ltb_ℤ, contains, get_elem?, set, if◌then◌else◌, ok_inj,
  Bool-cases, inl, inr, Ensures-check,
}
use sieve.Prelude.Dict.{Dict, lookup, insert}
use sieve.Json.{Value, Fields, end}
use sieve.Delta.Part.{diff_event}
use sieve.Event.Types.{event_none_type}
use sieve.Event.Keys.{item, as_dict}
use sieve.Event.Records.{ControllerHear, ControllerWrite, ControllerNonK8sWrite, ControllerRead}
use sieve.Event.Conflicts.{get_event_signature}
use sieve.Graph.Types.{
  Event, hear, write, non_k8s_write, read, begin, finish, EventVertex, EventGraph, vertex,
}
use sieve.Graph.Cancel.{hear_content, retrieve_masked, compute_event_cancel}

abbrev pub write_content : Event → Result ControllerWrite
write_content (write w) = ok w
write_content _ = err attribute_error

abbrev pub non_k8s_content : Event → Result ControllerNonK8sWrite
non_k8s_content (non_k8s_write w) = ok w
non_k8s_content _ = err attribute_error

abbrev pub read_content : Event → Result ControllerRead
read_content (read r) = ok r
read_content _ = err attribute_error

abbrev pub replace_content : ℕ → EventVertex → Event → EventGraph → EventGraph
replace_content gid v e g = record g { vertices = set g.vertices gid (record v { content = e }) }

-- `counter[signature] += 1`, from 0 where there is none; and `counter[signature]` then
unfoldable pub count_signature : String → Dict ℕ → ℕ × Dict ℕ
unfolding lookup insert
count_signature signature d = elim (lookup signature d) [
  | none ↦ (1, insert signature 1 d)
  | some n ↦ (n + 1, insert signature (n + 1) d)
]

-- The two objects of a difference, `none` where nothing changed.
abbrev pub half : Bool → Option (Fields × Fields) → Option Fields
half first none = none
half true (some d) = some d.0
half false (some d) = some d.1

-- The object of a read that the write follows in the same reconcile, with the type of the read.
abbrev pub Read : Type 0
Read = Fields × String

abbrev pub same_reconcile : Option String → Option String → Bool
same_reconcile none none = true
same_reconcile (some a) (some b) = a == b
same_reconcile _ _ = false

unfoldable pub note_before : ControllerWrite → ControllerRead → Read → Result Read
unfolding contains item
note_before w r prev = do
  check (contains w.key r.key_set)
  check (ltb_ℤ r.end_timestamp w.start_timestamp)
  if r.reconcile_fun == w.reconcile_fun && same_reconcile r.reconcile_id w.reconcile_id
      then (do v ← item w.key r.key_to_obj; obj ← as_dict v; ok (obj, r.etype))
      else ok prev

module _ (path_match : String → String → Bool) (dumps : Option Fields → String) where
  -- A hear with its difference from an object, and with its count among the hears of its key.
  unfoldable pub diff_hear :
      EventGraph → Fields → String → ControllerHear → Dict ℕ → Result (ControllerHear × Dict ℕ)
  unfolding retrieve_masked diff_event get_event_signature count_signature
  diff_hear g prev_obj_map prev_etype h counters = do
    masks ← retrieve_masked path_match g h.key
    let d = diff_event prev_obj_map h.obj_map masks.0 masks.1 false true
    let signature = get_event_signature dumps h.etype (half true d) (half false d)
    let counted = count_signature signature counters
    ok (
      record h {
        slim_prev_obj_map = half true d;
        slim_cur_obj_map = half false d;
        prev_etype = prev_etype;
        signature_counter = counted.0;
      },
      counted.1,
    )

  -- The loop over the hears of a key.
  unfoldable pub diff_hears : Fields → String → Dict ℕ → List ℕ → EventGraph → Result EventGraph
  unfolding vertex diff_hear
  diff_hears prev_obj_map prev_etype counters [] g = ok g
  diff_hears prev_obj_map prev_etype counters (gid ∷ gids) g = do
    v ← vertex g gid
    h ← hear_content v.content
    done ← diff_hear g prev_obj_map prev_etype h counters
    diff_hears h.obj_map h.etype done.1 gids (replace_content gid v (hear done.0) g)

  unfoldable pub diff_hear_keys : Dict (List ℕ) → EventGraph → Result EventGraph
  unfolding diff_hears
  diff_hear_keys [] g = ok g
  diff_hear_keys ((key, gids) ∷ d) g = do
    g' ← diff_hears end event_none_type [] gids g
    diff_hear_keys d g'

  -- The loop over the reads of the object, up to the first one that ends after the write starts.
  unfoldable pub read_before : EventGraph → ControllerWrite → List ℕ → Read → Result Read
  unfolding vertex note_before
  read_before g w [] prev = ok prev
  read_before g w (gid ∷ gids) prev = do
    v ← vertex g gid
    r ← read_content v.content
    if ltb_ℤ w.start_timestamp r.end_timestamp
        then ok prev
        else (do prev' ← note_before w r prev; read_before g w gids prev')

  abbrev pub reads_of : EventGraph → String → List ℕ
  reads_of g key = elim (lookup key g.controller_read_key_to_vertices) [
    | none ↦ []
    | some gids ↦ gids
  ]

  unfoldable pub diff_write :
      EventGraph → ControllerWrite → Dict ℕ → Result (ControllerWrite × Dict ℕ)
  unfolding lookup read_before retrieve_masked diff_event get_event_signature count_signature
  diff_write g w counters = do
    prev ← read_before g w (reads_of g w.key) (end, event_none_type)
    masks ← retrieve_masked path_match g w.key
    let d = diff_event prev.0 w.obj_map masks.0 masks.1 true true
    let signature = get_event_signature dumps w.etype (half true d) (half false d)
    let counted = count_signature signature counters
    ok (
      record w {
        prev_obj_map = some prev.0;
        slim_prev_obj_map = half true d;
        slim_cur_obj_map = half false d;
        prev_etype = prev.1;
        signature_counter = counted.0;
      },
      counted.1,
    )

  unfoldable pub diff_writes : Dict ℕ → List ℕ → EventGraph → Result EventGraph
  unfolding vertex diff_write
  diff_writes counters [] g = ok g
  diff_writes counters (gid ∷ gids) g = do
    v ← vertex g gid
    w ← write_content v.content
    done ← diff_write g w counters
    diff_writes done.1 gids (replace_content gid v (write done.0) g)

  unfoldable pub diff_write_keys : Dict (List ℕ) → EventGraph → Result EventGraph
  unfolding diff_writes
  diff_write_keys [] g = ok g
  diff_write_keys ((key, gids) ∷ d) g = do g' ← diff_writes [] gids g; diff_write_keys d g'

  -- The last loop: how often a function outside Kubernetes was called before.
  unfoldable pub count_calls : Dict ℕ → List ℕ → EventGraph → Result EventGraph
  unfolding vertex count_signature
  count_calls counters [] g = ok g
  count_calls counters (gid ∷ gids) g = do
    v ← vertex g gid
    w ← non_k8s_content v.content
    let counted = count_signature (w.recv_type <> ("/" <> w.fun_name)) counters
    count_calls counted.1 gids
        (replace_content gid v (non_k8s_write (record w { signature_counter = counted.0 })) g)

  unfoldable pub compute_event_diff : EventGraph → Result EventGraph
  unfolding diff_hear_keys diff_write_keys count_calls
  compute_event_diff g = do
    g₁ ← diff_hear_keys g.controller_hear_key_to_vertices g
    g₂ ← diff_write_keys g₁.controller_write_key_to_vertices g₁
    count_calls [] g₂.controller_non_k8s_write_vertices g₂

  unfoldable pub finalize : EventGraph → Result EventGraph
  unfolding compute_event_diff compute_event_cancel
  finalize g = do g' ← compute_event_diff g; compute_event_cancel path_match g'
