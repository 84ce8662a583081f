-- ===== src/Analyzer/Scan.antt =====
-- `parse_reconciler_events` of sieve_analyzer/analyze.py: the scan of the server log for what the
-- reconcilers do. The dicts and sets that the loop keeps are the fields of a record; a timestamp is
-- the number of a line. The two flags of the test context are parameters.
pub mod Times
pub mod Invariant
pub mod Steps
pub mod Run
pub mod Order
use sieve.Prelude.{
  ℕ, zero, suc, ◌+◌, ◌-◌, String, ◌==◌, Bool, true, false, not, ◌⊎◌, inl, inr, List, [], ◌∷◌, ◌&&◌,
  Option, none, some, Result, ok, err, key_error, attribute_error, from_option, check, ◌>>=◌, ◌>>◌,
  ℤ, pos, minus_one, nat_eq, contains, add_to_set, if◌then◌else◌,
}
use sieve.Prelude.Dict.{Dict, lookup, insert, erase}
use sieve.Prelude.IntDict.{IntDict, lookup_int, insert_int}
use sieve.Json.{Value}
use sieve.Event.Records.{
  ControllerWrite, ControllerNonK8sWrite, ControllerRead, ReconcileBegin, ReconcileEnd, set_range,
}
use sieve.Event.Parse.{
  in_line, sieve_before_rest_write_mark, sieve_after_rest_write_mark, sieve_after_rest_read_mark,
  sieve_after_cache_read_mark, sieve_before_reconcile_mark, sieve_after_reconcile_mark,
  sieve_before_annotated_api_invocation_mark, sieve_after_annotated_api_invocation_mark,
  parse_controller_write_id_only, parse_controller_non_k8s_write_id_only, parse_controller_write,
  parse_controller_non_k8s_write, parse_controller_read, parse_controller_cache_read,
  parse_reconcile,
}
use sieve.Graph.Types.{Event, write, non_k8s_write, read, begin, finish}
use sieve.Analyzer.Scan.Times.{EventMap, put, sorted_events}

-- What `parse_reconcile` returns, and its attributes.
abbrev pub Reconcile : Type 0
Reconcile = ReconcileBegin ⊎ ReconcileEnd

abbrev pub fun_of : Reconcile → String
fun_of (inl r) = r.reconcile_fun
fun_of (inr r) = r.reconcile_fun

abbrev pub id_of : Reconcile → String
id_of (inl r) = r.reconcile_id
id_of (inr r) = r.reconcile_id

abbrev pub end_of : Reconcile → ℤ
end_of (inl r) = r.end_timestamp
end_of (inr r) = r.end_timestamp

abbrev pub ended_at : ℕ → Reconcile → Reconcile
ended_at i (inl r) = inl (record r { end_timestamp = pos i })
ended_at i (inr r) = inr (record r { end_timestamp = pos i })

abbrev pub event_of : Reconcile → Event
event_of (inl r) = begin r
event_of (inr r) = finish r

pub record ReconcilerScan : Type 0 where
  pub controller_write_start_timestamp_map : IntDict ℕ
  pub controller_nk_write_start_timestamp_map : IntDict ℕ
  pub read_types_this_reconcile : List String
  pub read_keys_this_reconcile : List String
  pub prev_reconcile_per_type : Dict (Option Reconcile)
  pub cur_reconcile_per_type : Dict Reconcile
  pub cur_reconcile_is_trivial : Dict Bool
  pub ts_to_event_map : EventMap
  pub ongoing_reconciles : Dict ℕ

abbrev pub init_scan : ReconcilerScan
init_scan = record {
  controller_write_start_timestamp_map = [];
  controller_nk_write_start_timestamp_map = [];
  read_types_this_reconcile = [];
  read_keys_this_reconcile = [];
  prev_reconcile_per_type = [];
  cur_reconcile_per_type = [];
  cur_reconcile_is_trivial = [];
  ts_to_event_map = [];
  ongoing_reconciles = [];
}

-- `for key in cur_reconcile_is_trivial: cur_reconcile_is_trivial[key] = False`
unfoldable pub not_trivial : Dict Bool → Dict Bool
not_trivial [] = []
not_trivial ((k, b) ∷ d) = (k, false) ∷ not_trivial d

-- `s.update(xs)`
unfoldable pub update_set : List String → List String → List String
unfolding add_to_set
update_set [] xs = xs
update_set (y ∷ ys) xs = update_set ys (add_to_set y xs)

-- The end of the reconcile before the current one, if there is one.
abbrev pub earliest_timestamp : Option Reconcile → ℤ
earliest_timestamp none = minus_one
earliest_timestamp (some r) = end_of r

-- The range and the reconcile of a write that is inside a reconcile.
unfoldable pub in_reconcile : ℕ → ReconcilerScan → ControllerWrite → Result ControllerWrite
unfolding lookup set_range
in_reconcile i s w = elim (lookup w.reconcile_fun s.cur_reconcile_per_type) [
  | none ↦ ok w
  | some cur ↦ do
    prev ← from_option key_error (lookup w.reconcile_fun s.prev_reconcile_per_type)
    ranged ← set_range (earliest_timestamp prev) (pos i) w
    ok (record ranged { reconcile_id = some (id_of cur) })
]

-- `set_range`, called on an event: `ControllerWrite` is the only class that has this method.
unfoldable pub call_set_range : ℤ → ℤ → Event → Result Event
unfolding set_range
call_set_range start_timestamp end_timestamp (write w) = do
  ranged ← set_range start_timestamp end_timestamp w
  ok (write ranged)
call_set_range start_timestamp end_timestamp e = err attribute_error

-- The setter of `reconcile_id`, which writes and reads have.
unfoldable pub with_reconcile_id : String → Event → Result Event
with_reconcile_id id (write w) = ok (write (record w { reconcile_id = some id }))
with_reconcile_id id (non_k8s_write w) = ok (non_k8s_write (record w { reconcile_id = some id }))
with_reconcile_id id (read r) = ok (read (record r { reconcile_id = some id }))
with_reconcile_id id e = err attribute_error

-- The same for a call of an annotated API.
unfoldable pub nk_in_reconcile : ℕ → ReconcilerScan → ControllerNonK8sWrite → Result Event
unfolding lookup call_set_range with_reconcile_id
nk_in_reconcile i s w = elim (lookup w.reconcile_fun s.cur_reconcile_per_type) [
  | none ↦ ok (non_k8s_write w)
  | some cur ↦ do
    prev ← from_option key_error (lookup w.reconcile_fun s.prev_reconcile_per_type)
    ranged ← call_set_range (earliest_timestamp prev) (pos i) (non_k8s_write w)
    with_reconcile_id (id_of cur) ranged
]

abbrev pub is_outside : String → ReconcilerScan → Bool
is_outside fun s = elim (lookup fun s.cur_reconcile_per_type) [ none ↦ true | some r ↦ false ]

unfoldable pub before_write : ℕ → String → ReconcilerScan → Result ReconcilerScan
unfolding parse_controller_write_id_only insert_int
before_write i line s = do
  id ← parse_controller_write_id_only line
  let starts = insert_int id i s.controller_write_start_timestamp_map
  ok (record s { controller_write_start_timestamp_map = starts })

unfoldable pub before_nk_write : ℕ → String → ReconcilerScan → Result ReconcilerScan
unfolding parse_controller_non_k8s_write_id_only insert_int
before_nk_write i line s = do
  id ← parse_controller_non_k8s_write_id_only line
  let starts = insert_int id i s.controller_nk_write_start_timestamp_map
  ok (record s { controller_nk_write_start_timestamp_map = starts })

-- A write that is recorded: `timed` is the write with its times and what was read before it.
unfoldable pub record_write : ℕ → ControllerWrite → ReconcilerScan → Result ReconcilerScan
unfolding lookup_int in_reconcile put
record_write i w s = do
  start ← from_option key_error (lookup_int w.id s.controller_write_start_timestamp_map)
  let timed = record w {
    read_keys = s.read_keys_this_reconcile;
    read_types = s.read_types_this_reconcile;
    start_timestamp = pos start;
    end_timestamp = pos i;
  }
  placed ← in_reconcile i s timed
  ok (record s { ts_to_event_map = put start (write placed) s.ts_to_event_map })

unfoldable pub record_nk_write : ℕ → ControllerNonK8sWrite → ReconcilerScan → Result ReconcilerScan
unfolding lookup_int nk_in_reconcile put
record_nk_write i w s = do
  start ← from_option key_error (lookup_int w.id s.controller_nk_write_start_timestamp_map)
  let timed = record w { start_timestamp = pos start; end_timestamp = pos i }
  placed ← nk_in_reconcile i s timed
  ok (record s { ts_to_event_map = put start placed s.ts_to_event_map })

-- A read is recorded only inside a reconcile.
unfoldable pub record_read : ℕ → ControllerRead → ReconcilerScan → ReconcilerScan
unfolding lookup put
record_read i r s = elim (lookup r.reconcile_fun s.cur_reconcile_per_type) [
  | none ↦ s
  | some cur ↦ record s {
    ts_to_event_map =
        put i (read (record r { end_timestamp = pos i; reconcile_id = some (id_of cur) }))
          s.ts_to_event_map;
  }
]

-- What a cache read adds to the keys and types that the reconcile has read.
unfoldable pub note_read : ControllerRead → ReconcilerScan → ReconcilerScan
unfolding update_set add_to_set
note_read r s =
    if is_outside r.reconcile_fun s
    then s
    else if r.etype == "Get"
    then record s { read_keys_this_reconcile = update_set r.key_set s.read_keys_this_reconcile }
    else record s { read_types_this_reconcile = add_to_set r.rtype s.read_types_this_reconcile }

-- `ongoing_reconciles[reconcile_fun] += 1`, from 0 where there is none
unfoldable pub add_worker : String → Dict ℕ → Dict ℕ
unfolding lookup insert
add_worker fun d = elim (lookup fun d) [ none ↦ insert fun 1 d | some n ↦ insert fun (n + 1) d ]

-- `ongoing_reconciles[reconcile_fun] -= 1`, then `del` at 0
unfoldable pub drop_worker : String → Dict ℕ → Result (Dict ℕ)
unfolding lookup insert erase
drop_worker fun d = do
  n ← from_option key_error (lookup fun d)
  ok (if nat_eq (n - 1) 0 then erase fun d else insert fun (n - 1) d)

abbrev pub advance : Option Reconcile → Reconcile → ReconcilerScan → ReconcilerScan
advance prev r s = record s {
  prev_reconcile_per_type = insert (fun_of r) prev s.prev_reconcile_per_type;
  cur_reconcile_per_type = insert (fun_of r) r s.cur_reconcile_per_type;
}

-- Which branch of the loop's body a line takes: the first mark that is in it decides.
pub data LineKind : Type 0 where
  before_write_line after_write_line before_nk_write_line after_nk_write_line : LineKind
  after_rest_read_line after_cache_read_line before_reconcile_line after_reconcile_line : LineKind
  other_line : LineKind

unfoldable pub kind_of : String → LineKind
unfolding in_line
kind_of line =
    if in_line sieve_before_rest_write_mark line
    then before_write_line
    else if in_line sieve_after_rest_write_mark line
    then after_write_line
    else if in_line sieve_before_annotated_api_invocation_mark line
    then before_nk_write_line
    else if in_line sieve_after_annotated_api_invocation_mark line
    then after_nk_write_line
    else if in_line sieve_after_rest_read_mark line
    then after_rest_read_line
    else if in_line sieve_after_cache_read_mark line
    then after_cache_read_line
    else if in_line sieve_before_reconcile_mark line
    then before_reconcile_line
    else if in_line sieve_after_reconcile_mark line
    then after_reconcile_line
    else other_line

module _ (loads : String → Result Value)
    (loosen_reconciler_boundary compress_trivial_reconcile_enabled : Bool) where
  unfoldable pub after_write : ℕ → String → ReconcilerScan → Result ReconcilerScan
  unfolding not_trivial parse_controller_write record_write
  after_write i line s₀ = do
    let s = record s₀ { cur_reconcile_is_trivial = not_trivial s₀.cur_reconcile_is_trivial }
    w ← parse_controller_write loads line
    if is_outside w.reconcile_fun s && not loosen_reconciler_boundary
        then ok s
        else record_write i w s

  unfoldable pub after_nk_write : ℕ → String → ReconcilerScan → Result ReconcilerScan
  unfolding not_trivial parse_controller_non_k8s_write record_nk_write
  after_nk_write i line s₀ = do
    let s = record s₀ { cur_reconcile_is_trivial = not_trivial s₀.cur_reconcile_is_trivial }
    w ← parse_controller_non_k8s_write line
    if is_outside w.reconcile_fun s && not loosen_reconciler_boundary
        then ok s
        else record_nk_write i w s

  unfoldable pub after_rest_read : ℕ → String → ReconcilerScan → Result ReconcilerScan
  unfolding parse_controller_read record_read
  after_rest_read i line s = do r ← parse_controller_read loads line; ok (record_read i r s)

  unfoldable pub after_cache_read : ℕ → String → ReconcilerScan → Result ReconcilerScan
  unfolding parse_controller_cache_read record_read note_read
  after_cache_read i line s = do
    r ← parse_controller_cache_read loads line
    ok (note_read r (record_read i r s))

  -- Which reconcile is the current one of its function, and which is the one before.
  unfoldable pub roll : Reconcile → ReconcilerScan → Result ReconcilerScan
  unfolding lookup insert
  roll r s = elim (lookup (fun_of r) s.cur_reconcile_per_type) [
    | none ↦ ok (advance none r s)
    | some cur ↦ if not compress_trivial_reconcile_enabled then ok (advance (some cur) r s) else (do
      trivial ← from_option key_error (lookup (fun_of r) s.cur_reconcile_is_trivial)
      ok (if not trivial then advance (some cur) r s else s))
  ]

  unfoldable pub before_reconcile : ℕ → String → ReconcilerScan → Result ReconcilerScan
  unfolding parse_reconcile put add_worker lookup roll insert
  before_reconcile i line s = do
    parsed ← parse_reconcile line
    let r = ended_at i parsed
    let ongoing = add_worker (fun_of r) s.ongoing_reconciles
    n ← from_option key_error (lookup (fun_of r) ongoing)
    check (nat_eq n 1)
    s' ← roll r (record s {
      ts_to_event_map = put i (event_of r) s.ts_to_event_map;
      ongoing_reconciles = ongoing;
    })
    ok (record s' { cur_reconcile_is_trivial = insert (fun_of r) true s'.cur_reconcile_is_trivial })

  -- `if len(ongoing_reconciles) == 0`: the sets of what was read start again.
  unfoldable pub forget_reads : ReconcilerScan → ReconcilerScan
  forget_reads s = elim s.ongoing_reconciles [
    | [] ↦ record s { read_keys_this_reconcile = []; read_types_this_reconcile = [] }
    | x ∷ xs ↦ s
  ]

  unfoldable pub after_reconcile : ℕ → String → ReconcilerScan → Result ReconcilerScan
  unfolding parse_reconcile put drop_worker forget_reads
  after_reconcile i line s = do
    parsed ← parse_reconcile line
    let r = ended_at i parsed
    ongoing ← drop_worker (fun_of r) s.ongoing_reconciles
    ok (
        forget_reads (record s {
          ts_to_event_map = put i (event_of r) s.ts_to_event_map;
          ongoing_reconciles = ongoing;
        }))

  -- The branches of the loop's body.
  unfoldable pub scan_branch : LineKind → ℕ → String → ReconcilerScan → Result ReconcilerScan
  unfolding before_write after_write before_nk_write after_nk_write after_rest_read after_cache_read
      before_reconcile after_reconcile
  scan_branch before_write_line i line s = before_write i line s
  scan_branch after_write_line i line s = after_write i line s
  scan_branch before_nk_write_line i line s = before_nk_write i line s
  scan_branch after_nk_write_line i line s = after_nk_write i line s
  scan_branch after_rest_read_line i line s = after_rest_read i line s
  scan_branch after_cache_read_line i line s = after_cache_read i line s
  scan_branch before_reconcile_line i line s = before_reconcile i line s
  scan_branch after_reconcile_line i line s = after_reconcile i line s
  scan_branch other_line i line s = ok s

  unfoldable pub scan_line : ℕ → String → ReconcilerScan → Result ReconcilerScan
  unfolding kind_of scan_branch
  scan_line i line s = scan_branch (kind_of line) i line s

  unfoldable pub scan_lines : ℕ → List String → ReconcilerScan → Result ReconcilerScan
  unfolding scan_line
  scan_lines i [] s = ok s
  scan_lines i (line ∷ lines) s = do s' ← scan_line i line s; scan_lines (suc i) lines s'

  unfoldable pub parse_reconciler_events : List String → Result (List Event)
  unfolding scan_lines sorted_events
  parse_reconciler_events lines = do
    s ← scan_lines 0 lines init_scan
    ok (sorted_events s.ts_to_event_map)
