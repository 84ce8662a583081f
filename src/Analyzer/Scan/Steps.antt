-- ===== src/Analyzer/Scan/Steps.antt =====
-- The parts of a step of `parse_reconciler_events` keep what the states of the scan satisfy: what
-- records a write or a read, and what counts the workers.
use sieve.Prelude.{
  ℕ, ◌+◌, String, ◌==◌, ◌≡◌, refl, sym, ◌∙◌, subst, Bool, true, false, Bool-cases, Option-cases,
  inl, inr, none, some, pos, Ensures, Ensures-ok, Ensures-bind, Ensures-check, arith, eq_cases,
  nat_eq, nat_eq_iff, if◌then◌else◌, from_option, from_option-ok, key_error, ltb_ℤ, add_to_set,
}
use sieve.Prelude.Dict.{Dict, lookup, lookup-insert, lookup-erase}
use sieve.Prelude.IntDict.{lookup_int}
use sieve.Event.Records.{ControllerWrite, ControllerNonK8sWrite, ControllerRead, set_range}
use sieve.Graph.Types.{Event, write, read}
use sieve.Analyzer.Scan.{
  id_of, ReconcilerScan, earliest_timestamp, in_reconcile, nk_in_reconcile, call_set_range,
  record_write, record_nk_write, record_read, note_read, update_set, add_worker, drop_worker,
  is_outside,
}
use sieve.Analyzer.Scan.Invariant.{time_of, IsScan, filed_at-IsScan}

-- A write that a reconcile has placed keeps its start.
in_reconcile-start :
    (i : ℕ) (s : ReconcilerScan) (w : ControllerWrite)
    → Ensures (λ w'. w'.start_timestamp ≡ w.start_timestamp) (in_reconcile i s w)
unfolding in_reconcile set_range
in_reconcile-start i s w = elim (Option-cases (lookup w.reconcile_fun s.cur_reconcile_per_type)) [
  | inl e ↦ rw (e, in_reconcile) refl
  | inr (cur, e) ↦
      let P = λ (w' : ControllerWrite). w'.start_timestamp ≡ w.start_timestamp in
      rw (e, in_reconcile)
        (Ensures-bind P (from_option key_error (lookup w.reconcile_fun s.prev_reconcile_per_type)) _
          (λ prev _. Ensures-bind P (set_range (earliest_timestamp prev) (pos i) w) _ (λ ranged f.
            Ensures-ok P (set_range (earliest_timestamp prev) (pos i) w)
              (Ensures-check P (ltb_ℤ (earliest_timestamp prev) (pos i)) _ (λ _. refl)) f)))
]

nk_in_reconcile-start :
    (i : ℕ) (s : ReconcilerScan) (w : ControllerNonK8sWrite)
    → Ensures (λ e. time_of e ≡ w.start_timestamp) (nk_in_reconcile i s w)
unfolding nk_in_reconcile call_set_range
nk_in_reconcile-start i s w =
    elim (Option-cases (lookup w.reconcile_fun s.cur_reconcile_per_type)) [
      | inl e ↦ rw (e, nk_in_reconcile) refl
      | inr (cur, e) ↦
          rw (e, nk_in_reconcile)
            (Ensures-bind (λ (e : Event). time_of e ≡ w.start_timestamp)
              (from_option key_error (lookup w.reconcile_fun s.prev_reconcile_per_type)) _
              (λ prev _. tt))
    ]

pub record_write-IsScan :
    (i j : ℕ) (w : ControllerWrite) (s : ReconcilerScan)
    → IsScan j s
    → Ensures (IsScan j) (record_write i w s)
unfolding record_write
record_write-IsScan i j w s h =
    Ensures-bind (IsScan j)
      (from_option key_error (lookup_int w.id s.controller_write_start_timestamp_map)) _
      (λ start _.
        let timed = record w {
          read_keys = s.read_keys_this_reconcile;
          read_types = s.read_types_this_reconcile;
          start_timestamp = pos start;
          end_timestamp = pos i;
        } in
        Ensures-bind (IsScan j) (in_reconcile i s timed) _ (λ placed e.
          let starts = λ (w' : ControllerWrite). w'.start_timestamp ≡ pos start in
          filed_at-IsScan j start (write placed) s
            (Ensures-ok starts (in_reconcile i s timed) (in_reconcile-start i s timed) e) h))

pub record_nk_write-IsScan :
    (i j : ℕ) (w : ControllerNonK8sWrite) (s : ReconcilerScan)
    → IsScan j s
    → Ensures (IsScan j) (record_nk_write i w s)
unfolding record_nk_write
record_nk_write-IsScan i j w s h =
    Ensures-bind (IsScan j)
      (from_option key_error (lookup_int w.id s.controller_nk_write_start_timestamp_map)) _
      (λ start _.
        let timed = record w { start_timestamp = pos start; end_timestamp = pos i } in
        Ensures-bind (IsScan j) (nk_in_reconcile i s timed) _ (λ placed e.
          let starts = λ (e : Event). time_of e ≡ pos start in
          filed_at-IsScan j start placed s
            (Ensures-ok starts (nk_in_reconcile i s timed) (nk_in_reconcile-start i s timed) e) h))

pub record_read-IsScan :
    (i j : ℕ) (r : ControllerRead) (s : ReconcilerScan) → IsScan j s → IsScan j (record_read i r s)
unfolding record_read
record_read-IsScan i j r s h =
    elim (Option-cases (lookup r.reconcile_fun s.cur_reconcile_per_type)) [
      | inl e ↦ rw (e, record_read) h
      | inr (cur, e) ↦
          rw (e, record_read)
            (filed_at-IsScan j i
              (read (record r { end_timestamp = pos i; reconcile_id = some (id_of cur) })) s refl h)
    ]

pub note_read-IsScan :
    (i : ℕ) (r : ControllerRead) (s : ReconcilerScan) → IsScan i s → IsScan i (note_read r s)
unfolding note_read
note_read-IsScan i r s h = note (is_outside r.reconcile_fun s) (r.etype == "Get")
  where
    note :
        (b c : Bool)
        → IsScan i (
            if b
            then s
            else if c
            then record s {
              read_keys_this_reconcile = update_set r.key_set s.read_keys_this_reconcile;
            }
            else record s {
              read_types_this_reconcile = add_to_set r.rtype s.read_types_this_reconcile;
            })
    note true c = h
    note false true = record {
      kept = h.kept;
      single = h.single;
      filed = h.filed;
      distinct = h.distinct;
    }
    note false false = record {
      kept = h.kept;
      single = h.single;
      filed = h.filed;
      distinct = h.distinct;
    }

lookup-add_worker :
    (fun k : String) (d : Dict ℕ) → (fun == k) ≡ false → lookup k (add_worker fun d) ≡ lookup k d
unfolding add_worker
lookup-add_worker fun k d e = elim (Option-cases (lookup fun d)) [
  | inl f ↦ rw (f, add_worker) (lookup-insert fun k 1 d ∙ rw e refl)
  | inr (n, f) ↦ rw (f, add_worker) (lookup-insert fun k (n + 1) d ∙ rw e refl)
]

abbrev pub AllSingle : Dict ℕ → Type 0
AllSingle d = (fun : String) (n : ℕ) → lookup fun d ≡ some n → n ≡ 1

-- The test that ends the scan when a second worker starts is what keeps the workers single.
pub add_worker-AllSingle :
    (fun : String) (d : Dict ℕ) (n : ℕ)
    → AllSingle d
    → lookup fun (add_worker fun d) ≡ some n
    → nat_eq n 1 ≡ true
    → AllSingle (add_worker fun d)
add_worker-AllSingle fun d n h e one k m f = elim (eq_cases fun k) [
  | inl (same, _) ↦
      let f' : lookup fun (add_worker fun d) ≡ some m =
        subst (λ x. lookup x (add_worker fun d) ≡ some m) (sym same) f in
      let q : n ≡ m = cc in let q' = (nat_eq_iff n 1).0 one in omega arith
  | inr (_, differ) ↦ h k m (sym (lookup-add_worker fun k d differ) ∙ f)
]

pub drop_worker-AllSingle :
    (fun : String) (d : Dict ℕ) → AllSingle d → Ensures AllSingle (drop_worker fun d)
unfolding drop_worker
drop_worker-AllSingle fun d h =
    Ensures-bind AllSingle (from_option key_error (lookup fun d)) _ (λ n e.
      let one = h fun n (from_option-ok key_error (lookup fun d) e) in
      rw one (λ k m f. elim (Bool-cases (fun == k)) [
        | inl q ↦ (let f' : none ≡ some m = sym (lookup-erase fun k d ∙ rw q refl) ∙ f in cc)
        | inr q ↦ h k m (sym (lookup-erase fun k d ∙ rw q refl) ∙ f)
      ]))
