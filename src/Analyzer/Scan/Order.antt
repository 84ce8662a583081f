-- ===== src/Analyzer/Scan/Order.antt =====
-- What `parse_reconciler_events` promises of the events that it returns and of the writes that it
-- places inside a reconcile.
use sieve.Prelude.{
  ℕ, suc, ◌+◌, ◌++◌, ap, ◌∙◌, ◌<◌, String, ◌≡◌, refl, sym, subst, Bool, true, List, [], ◌∷◌, Option,
  none, some, Result, ok, err, attribute_error, ℤ, pos, ◌<ℤ◌, ltb_ℤ, All, length, arith, >>=-eq-ok,
  ok_inj,
}
use sieve.Prelude.Dict.{lookup}
use sieve.Prelude.IntDict.{lookup_int}
use sieve.Event.Parse.{parse_controller_non_k8s_write}
use sieve.Json.{Value}
use sieve.Event.Records.{ControllerWrite, ControllerNonK8sWrite, set_range}
use sieve.Graph.Types.{Event}
use sieve.Analyzer.Scan.Times.{
  EventMap, IsIncreasing, sorted_items, events_of, sorted_events, All-sorted_items,
  sorted_items-IsIncreasing,
}
use sieve.Analyzer.Scan.{
  Reconcile, id_of, ReconcilerScan, init_scan, earliest_timestamp, in_reconcile, nk_in_reconcile,
  call_set_range, record_nk_write, is_outside, after_nk_write, after_nk_write_line, kind_of,
  scan_line, scan_branch, scan_lines, parse_reconciler_events,
}
use sieve.Analyzer.Scan.Invariant.{time_of, IsBeforeIfAny, IsScan, untrivial, untrivial-IsScan}
use sieve.Analyzer.Scan.Run.{scanned-IsScan}

-- The events come at strictly increasing times.
abbrev pub IsInOrder : List Event → Type 0
IsInOrder [] = Unit
IsInOrder (e ∷ es) = All (λ f. time_of e <ℤ time_of f) es × IsInOrder es

All-events_of :
    (e : Event) (t : ℕ) (d : EventMap)
    → time_of e ≡ pos t
    → All (λ p. time_of p.1 ≡ pos p.0) d
    → All (λ p. t < p.0) d
    → All (λ f. time_of e <ℤ time_of f) (events_of d)
unfolding events_of
All-events_of e t [] q filed later = tt
All-events_of e t ((u, f) ∷ d) q filed later =
    (rw (q, filed.0) (let l = later.0 in omega arith), All-events_of e t d q filed.1 later.1)

events_of-IsInOrder :
    (d : EventMap) → All (λ p. time_of p.1 ≡ pos p.0) d → IsIncreasing d → IsInOrder (events_of d)
unfolding events_of
events_of-IsInOrder [] filed h = tt
events_of-IsInOrder ((t, e) ∷ d) filed h =
    (All-events_of e t d filed.0 filed.1 h.0, events_of-IsInOrder d filed.1 h.1)

-- What a reconcile's write gets: a range that ends at the line, and the reconcile's id.
abbrev pub IsPlaced : ℕ → Reconcile → ControllerWrite → ControllerWrite → Type 0
IsPlaced i cur w w' =
    (w'.range_start_timestamp <ℤ pos i)
    × (w'.range_end_timestamp ≡ pos i)
    × (w'.reconcile_id ≡ some (id_of cur))
    × (w'.start_timestamp ≡ w.start_timestamp)

earliest_timestamp-before :
    (i : ℕ) (o : Option Reconcile) → IsBeforeIfAny i o → earliest_timestamp o <ℤ pos i
earliest_timestamp-before i none h = omega arith
earliest_timestamp-before i (some r) h =
    let (n, e, l) = h r refl in
    subst (λ x. x <ℤ pos i) (sym e) (let k : pos n <ℤ pos i = omega arith in k)

set_range-ok :
    (a b : ℤ) (w : ControllerWrite)
    → a <ℤ b
    → set_range a b w ≡ ok (record w { range_start_timestamp = a; range_end_timestamp = b })
unfolding set_range
set_range-ok a b w l = let e : ltb_ℤ a b ≡ true = ground arith in rw e refl

module _ (loads : String → Result Value)
    (loosen_reconciler_boundary compress_trivial_reconcile_enabled : Bool)
    (lines : List String) where
  -- If `parse_reconciler_events` returns for a log, then the events that it returns are in strictly
  -- increasing order of time: the start of a write, and the end of a read or a reconcile mark.
  pub parse_reconciler_events-IsInOrder :
      (events : List Event)
      → parse_reconciler_events loads loosen_reconciler_boundary compress_trivial_reconcile_enabled
          lines
        ≡ ok events
      → IsInOrder events
  unfolding parse_reconciler_events sorted_events
  parse_reconciler_events-IsInOrder events e =
      let scan =
        scan_lines loads loosen_reconciler_boundary compress_trivial_reconcile_enabled 0 lines
          init_scan in
      let (s, f, q) = >>=-eq-ok scan (λ s. ok (sorted_events s.ts_to_event_map)) e in
      let h =
        scanned-IsScan loads loosen_reconciler_boundary compress_trivial_reconcile_enabled lines s
          f in
      subst IsInOrder (ok_inj q) (
        events_of-IsInOrder (sorted_items s.ts_to_event_map)
          (All-sorted_items (λ p. time_of p.1 ≡ pos p.0) s.ts_to_event_map h.filed)
          (sorted_items-IsIncreasing s.ts_to_event_map h.distinct))

  -- If the scan of a log's first lines returns a state in which the function of a write has a
  -- current reconcile, then placing the write at the next line returns: there is an entry for the
  -- reconcile before, the assertion of `set_range` holds, and the write keeps its start and gets a
  -- range that ends at the line and starts before it, and the id of the current reconcile.
  pub in_reconcile-IsPlaced :
      (s : ReconcilerScan) (w : ControllerWrite) (cur : Reconcile)
      → scan_lines loads loosen_reconciler_boundary compress_trivial_reconcile_enabled 0 lines
          init_scan
        ≡ ok s
      → lookup w.reconcile_fun s.cur_reconcile_per_type ≡ some cur
      → (w' : ControllerWrite) × (in_reconcile (length lines) s w ≡ ok w')
        × IsPlaced (length lines) cur w w'
  unfolding in_reconcile
  in_reconcile-IsPlaced s w cur e f =
      let h =
        scanned-IsScan loads loosen_reconciler_boundary compress_trivial_reconcile_enabled lines s
          e in
      let (_, (o, p, old), _) = h.kept w.reconcile_fun cur f in
      let l = earliest_timestamp-before (length lines) o old in
      (
        record w {
          range_start_timestamp = earliest_timestamp o;
          range_end_timestamp = pos (length lines);
          reconcile_id = some (id_of cur);
        },
        rw (f, p, in_reconcile, set_range-ok (earliest_timestamp o) (pos (length lines)) w l) refl,
        (l, refl, refl, refl),
      )

  -- The scan of more lines goes on from the state after the first ones.
  scan_lines-append :
      (i : ℕ) (front back : List String) (s s' : ReconcilerScan)
      → scan_lines loads loosen_reconciler_boundary compress_trivial_reconcile_enabled i front s
        ≡ ok s'
      → scan_lines loads loosen_reconciler_boundary compress_trivial_reconcile_enabled i
          (front ++ back)
          s
        ≡ scan_lines loads loosen_reconciler_boundary compress_trivial_reconcile_enabled
            (i + length front)
            back
            s'
  unfolding scan_lines
  scan_lines-append i [] back s s' e = rw (ok_inj e) (
      ap
        (λ n.
          scan_lines loads loosen_reconciler_boundary compress_trivial_reconcile_enabled n back s')
        (omega arith))
  scan_lines-append i (line ∷ front) back s s' e =
      let step =
        scan_line loads loosen_reconciler_boundary compress_trivial_reconcile_enabled i line s in
      let (next, p, q) = >>=-eq-ok step _ e in
      rw p (
        scan_lines-append (suc i) front back next s' q
        ∙ ap
            (λ n.
              scan_lines loads loosen_reconciler_boundary compress_trivial_reconcile_enabled n back
                s')
            (omega arith))

  record_nk_write-attribute_error :
      (i : ℕ) (s : ReconcilerScan) (w : ControllerNonK8sWrite) (cur : Reconcile) (start : ℕ)
      → IsScan i s
      → lookup w.reconcile_fun s.cur_reconcile_per_type ≡ some cur
      → lookup_int w.id s.controller_nk_write_start_timestamp_map ≡ some start
      → record_nk_write i w s ≡ err attribute_error
  unfolding record_nk_write nk_in_reconcile call_set_range
  record_nk_write-attribute_error i s w cur start h f g =
      let (_, (o, p, _), _) = h.kept w.reconcile_fun cur f in
      rw (g, record_nk_write) (rw (f, p, nk_in_reconcile) refl)

  after_nk_write-attribute_error :
      (i : ℕ) (line : String) (s : ReconcilerScan) (w : ControllerNonK8sWrite) (cur : Reconcile)
      (start : ℕ)
      → IsScan i s
      → parse_controller_non_k8s_write line ≡ ok w
      → lookup w.reconcile_fun s.cur_reconcile_per_type ≡ some cur
      → lookup_int w.id s.controller_nk_write_start_timestamp_map ≡ some start
      → after_nk_write loads loosen_reconciler_boundary compress_trivial_reconcile_enabled i line s
        ≡ err attribute_error
  unfolding after_nk_write
  after_nk_write-attribute_error i line s w cur start h p f g =
      rw (p, after_nk_write)
        (rw (f, is_outside)
          (record_nk_write-attribute_error i (untrivial s) w cur start (untrivial-IsScan i s h) f
            g))

  -- If the scan of a log's first lines returns a state in which the function of an annotated API
  -- call has a current reconcile and the call's start is recorded, and the next line is the end of
  -- the call, then `parse_reconciler_events` raises an `AttributeError`, whatever lines follow.
  pub parse_reconciler_events-attribute_error :
      (s : ReconcilerScan) (line : String) (rest : List String) (w : ControllerNonK8sWrite)
      (cur : Reconcile) (start : ℕ)
      → scan_lines loads loosen_reconciler_boundary compress_trivial_reconcile_enabled 0 lines
          init_scan
        ≡ ok s
      → kind_of line ≡ after_nk_write_line
      → parse_controller_non_k8s_write line ≡ ok w
      → lookup w.reconcile_fun s.cur_reconcile_per_type ≡ some cur
      → lookup_int w.id s.controller_nk_write_start_timestamp_map ≡ some start
      → parse_reconciler_events loads loosen_reconciler_boundary compress_trivial_reconcile_enabled
          (lines ++ (line ∷ rest))
        ≡ err attribute_error
  unfolding parse_reconciler_events scan_lines scan_line scan_branch
  parse_reconciler_events-attribute_error s line rest w cur start e k p f g =
      let h =
        subst (λ n. IsScan n s) (omega arith)
          (scanned-IsScan loads loosen_reconciler_boundary compress_trivial_reconcile_enabled lines
            s e) in
      rw
        (
          scan_lines-append 0 lines (line ∷ rest) init_scan s e,
          k,
          after_nk_write-attribute_error (0 + length lines) line s w cur start h p f g,
        )
        refl
