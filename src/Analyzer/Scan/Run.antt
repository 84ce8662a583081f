-- ===== src/Analyzer/Scan/Run.antt =====
-- The scan of `parse_reconciler_events` from its start: every state that it passes satisfies the
-- invariant, and so a write inside a reconcile is always placed.
use sieve.Prelude.{
  ℕ, suc, ◌+◌, String, ◌≡◌, subst, Bool, true, false, Option-cases, not, inl, inr, List, [], ◌∷◌,
  ◌&&◌, Option, none, some, Result, ok, ◌>>=◌, Ensures, Ensures-ok, Ensures-bind, Ensures-map,
  Ensures-check, arith, nat_eq, if◌then◌else◌, from_option, from_option-ok, key_error,
}
use sieve.Prelude.Dict.{lookup}
use sieve.Json.{Value}
use sieve.Event.Parse.{
  parse_controller_write_id_only, parse_controller_non_k8s_write_id_only, parse_controller_write,
  parse_controller_non_k8s_write, parse_controller_read, parse_controller_cache_read,
  parse_reconcile,
}
use sieve.Analyzer.Scan.{
  before_write_line, after_write_line, before_nk_write_line, after_nk_write_line,
  after_rest_read_line, after_cache_read_line, before_reconcile_line, after_reconcile_line,
  other_line, LineKind, kind_of, scan_branch, Reconcile, fun_of, ended_at, event_of, ReconcilerScan,
  init_scan, before_write, before_nk_write, record_read, add_worker, drop_worker, advance,
  after_write, after_nk_write, after_rest_read, after_cache_read, roll, before_reconcile,
  forget_reads, after_reconcile, scan_line, scan_lines, is_outside,
}
use sieve.Analyzer.Scan.Invariant.{
  IsBefore, IsScan, init_scan-IsScan, IsScan-suc, ended_at-IsBefore, time_of-event_of, filed_at,
  filed_at-IsScan, untrivial, untrivial-IsScan, marked, marked-IsScan, advance-IsScan,
}
use sieve.Analyzer.Scan.Steps.{
  record_write-IsScan, record_nk_write-IsScan, record_read-IsScan, note_read-IsScan, AllSingle,
  add_worker-AllSingle, drop_worker-AllSingle,
}
use sieve.Prelude.{length}
use sieve.Prelude.IntDict.{IntDict, insert_int}

-- What a state after line `i` satisfies, once the current reconcile is marked as trivial.
IsRolled : ℕ → Reconcile → ReconcilerScan → Type 0
IsRolled i r s = IsScan i (marked (fun_of r) s)

forget_reads-IsScan :
    (loads : String → Result Value) (loosen compress : Bool) (i : ℕ) (s : ReconcilerScan)
    → IsScan i s
    → IsScan i (forget_reads loads loosen compress s)
unfolding forget_reads
forget_reads-IsScan loads loosen compress i s h =
    elim s.ongoing_reconciles
      as (λ o. IsScan i (elim o [
        | [] ↦ record s { read_keys_this_reconcile = []; read_types_this_reconcile = [] }
        | x ∷ xs ↦ s
      ])) [
        | [] ↦ record { kept = h.kept; single = h.single; filed = h.filed; distinct = h.distinct }
        | x ∷ xs ↦ h
      ]

starts-IsScan :
    (i : ℕ) (s : ReconcilerScan) (writes nk_writes : IntDict ℕ)
    → IsScan i s
    → IsScan i (record s {
      controller_write_start_timestamp_map = writes;
      controller_nk_write_start_timestamp_map = nk_writes;
    })
starts-IsScan i s writes nk_writes h = record {
  kept = h.kept;
  single = h.single;
  filed = h.filed;
  distinct = h.distinct;
}

Ensures-choice :
    {A : Type 0} (P : A → Type 0) (b : Bool) (m n : Result A)
    → Ensures P m
    → Ensures P n
    → Ensures P (if b then m else n)
Ensures-choice P true m n h k = h
Ensures-choice P false m n h k = k

module _ (loads : String → Result Value)
    (loosen_reconciler_boundary compress_trivial_reconcile_enabled : Bool) where
  roll-IsScan :
      (i : ℕ) (r : Reconcile) (s : ReconcilerScan)
      → IsBefore i r
      → IsScan i s
      → Ensures
          (IsRolled i r)
          (roll loads loosen_reconciler_boundary compress_trivial_reconcile_enabled r s)
  unfolding roll IsRolled
  roll-IsScan i r s now h = elim (Option-cases (lookup (fun_of r) s.cur_reconcile_per_type)) [
    | inl e ↦ rw (e, roll) (advance-IsScan i none r s now (λ q f. cc) h)
    | inr (cur, e) ↦
        let (before, _, _) = h.kept (fun_of r) cur e in
        let next =
          advance-IsScan i (some cur) r s now
            (λ q f. subst (IsBefore i) (let k : cur ≡ q = cc in k) before) h in
        rw (e, roll)
          (rolled (fun_of r) compress_trivial_reconcile_enabled i s (advance (some cur) r s)
            (lookup (fun_of r) s.cur_reconcile_is_trivial) next (marked-IsScan i (fun_of r) s h))
  ]
    where
      rolled :
          (fun : String) (compress : Bool) (i : ℕ) (s s' : ReconcilerScan) (o : Option Bool)
          → IsScan i (marked fun s')
          → IsScan i (marked fun s)
          → Ensures
              (λ x. IsScan i (marked fun x))
              (if not compress
                then ok s'
                else (do trivial ← from_option key_error o; ok (if not trivial then s' else s)))
      rolled fun false i s s' o next same = next
      rolled fun true i s s' none next same = tt
      rolled fun true i s s' (some true) next same = same
      rolled fun true i s s' (some false) next same = next

  before_reconcile-IsScan :
      (i : ℕ) (line : String) (s : ReconcilerScan)
      → IsScan (suc i) s
      → Ensures (IsScan (suc i)) (
          before_reconcile loads loosen_reconciler_boundary compress_trivial_reconcile_enabled i
            line s)
  unfolding before_reconcile IsRolled
  before_reconcile-IsScan i line s h =
      Ensures-bind (IsScan (suc i)) (parse_reconcile line) _ (λ parsed _.
        let r = ended_at i parsed in
        let ongoing = add_worker (fun_of r) s.ongoing_reconciles in
        Ensures-bind (IsScan (suc i)) (from_option key_error (lookup (fun_of r) ongoing)) _ (λ n e.
          Ensures-check (IsScan (suc i)) (nat_eq n 1) _ (λ one.
            let found = from_option-ok key_error (lookup (fun_of r) ongoing) e in
            let single =
              add_worker-AllSingle (fun_of r) s.ongoing_reconciles n h.single found one in
            let s₁ = record (filed_at i (event_of r) s) { ongoing_reconciles = ongoing } in
            let filed = filed_at-IsScan (suc i) i (event_of r) s (time_of-event_of i parsed) h in
            let h₁ : IsScan (suc i) s₁ = record {
              kept = h.kept;
              single = single;
              filed = filed.filed;
              distinct = filed.distinct;
            } in
            let rolled =
              roll loads loosen_reconciler_boundary compress_trivial_reconcile_enabled r s₁ in
            Ensures-bind (IsScan (suc i)) rolled _ (λ s' f.
              Ensures-ok (IsRolled (suc i) r) rolled
                (roll-IsScan (suc i) r s₁ (ended_at-IsBefore i parsed) h₁) f))))

  after_reconcile-IsScan :
      (i : ℕ) (line : String) (s : ReconcilerScan)
      → IsScan (suc i) s
      → Ensures (IsScan (suc i)) (
          after_reconcile loads loosen_reconciler_boundary compress_trivial_reconcile_enabled i line
            s)
  unfolding after_reconcile
  after_reconcile-IsScan i line s h =
      Ensures-bind (IsScan (suc i)) (parse_reconcile line) _ (λ parsed _.
        let r = ended_at i parsed in
        Ensures-bind (IsScan (suc i)) (drop_worker (fun_of r) s.ongoing_reconciles) _ (λ ongoing e.
          let single =
            Ensures-ok AllSingle (drop_worker (fun_of r) s.ongoing_reconciles)
              (drop_worker-AllSingle (fun_of r) s.ongoing_reconciles h.single) e in
          let filed = filed_at-IsScan (suc i) i (event_of r) s (time_of-event_of i parsed) h in
          forget_reads-IsScan loads loosen_reconciler_boundary compress_trivial_reconcile_enabled
            (suc i) (record (filed_at i (event_of r) s) { ongoing_reconciles = ongoing })
            (record {
              kept = h.kept;
              single = single;
              filed = filed.filed;
              distinct = filed.distinct;
            })))

  after_write-IsScan :
      (i : ℕ) (line : String) (s : ReconcilerScan)
      → IsScan (suc i) s
      → Ensures
          (IsScan (suc i))
          (after_write loads loosen_reconciler_boundary compress_trivial_reconcile_enabled i line s)
  unfolding after_write
  after_write-IsScan i line s h =
      Ensures-bind (IsScan (suc i)) (parse_controller_write loads line) _ (λ w _.
        let h' = untrivial-IsScan (suc i) s h in
        Ensures-choice (IsScan (suc i))
          (is_outside w.reconcile_fun (untrivial s) && not loosen_reconciler_boundary) _ _ h'
          (record_write-IsScan i (suc i) w (untrivial s) h'))

  after_nk_write-IsScan :
      (i : ℕ) (line : String) (s : ReconcilerScan)
      → IsScan (suc i) s
      → Ensures (IsScan (suc i)) (
          after_nk_write loads loosen_reconciler_boundary compress_trivial_reconcile_enabled i line
            s)
  unfolding after_nk_write
  after_nk_write-IsScan i line s h =
      Ensures-bind (IsScan (suc i)) (parse_controller_non_k8s_write line) _ (λ w _.
        let h' = untrivial-IsScan (suc i) s h in
        Ensures-choice (IsScan (suc i))
          (is_outside w.reconcile_fun (untrivial s) && not loosen_reconciler_boundary) _ _ h'
          (record_nk_write-IsScan i (suc i) w (untrivial s) h'))

  scan_branch-IsScan :
      (k : LineKind) (i : ℕ) (line : String) (s : ReconcilerScan)
      → IsScan (suc i) s
      → Ensures (IsScan (suc i)) (
          scan_branch loads loosen_reconciler_boundary compress_trivial_reconcile_enabled k i line
            s)
  unfolding scan_branch before_write before_nk_write after_rest_read after_cache_read
  scan_branch-IsScan before_write_line i line s h =
      Ensures-bind (IsScan (suc i)) (parse_controller_write_id_only line) _ (λ id _.
        starts-IsScan (suc i) s (insert_int id i s.controller_write_start_timestamp_map)
          s.controller_nk_write_start_timestamp_map h)
  scan_branch-IsScan after_write_line i line s h = after_write-IsScan i line s h
  scan_branch-IsScan before_nk_write_line i line s h =
      Ensures-bind (IsScan (suc i)) (parse_controller_non_k8s_write_id_only line) _ (λ id _.
        starts-IsScan (suc i) s s.controller_write_start_timestamp_map
          (insert_int id i s.controller_nk_write_start_timestamp_map) h)
  scan_branch-IsScan after_nk_write_line i line s h = after_nk_write-IsScan i line s h
  scan_branch-IsScan after_rest_read_line i line s h =
      Ensures-bind (IsScan (suc i)) (parse_controller_read loads line) _
        (λ r _. record_read-IsScan i (suc i) r s h)
  scan_branch-IsScan after_cache_read_line i line s h =
      Ensures-bind (IsScan (suc i)) (parse_controller_cache_read loads line) _
        (λ r _. note_read-IsScan (suc i) r (record_read i r s) (record_read-IsScan i (suc i) r s h))
  scan_branch-IsScan before_reconcile_line i line s h = before_reconcile-IsScan i line s h
  scan_branch-IsScan after_reconcile_line i line s h = after_reconcile-IsScan i line s h
  scan_branch-IsScan other_line i line s h = h

  scan_line-IsScan :
      (i : ℕ) (line : String) (s : ReconcilerScan)
      → IsScan i s
      → Ensures
          (IsScan (suc i))
          (scan_line loads loosen_reconciler_boundary compress_trivial_reconcile_enabled i line s)
  unfolding scan_line
  scan_line-IsScan i line s h = scan_branch-IsScan (kind_of line) i line s (IsScan-suc i s h)

  -- The states that the scan of the first lines of a log can be in.
  scan_lines-IsScan :
      (i : ℕ) (lines : List String) (s : ReconcilerScan)
      → IsScan i s
      → Ensures
          (IsScan (i + length lines))
          (scan_lines loads loosen_reconciler_boundary compress_trivial_reconcile_enabled i lines s)
  unfolding scan_lines
  scan_lines-IsScan i [] s h = subst (λ n. IsScan n s) (omega arith) h
  scan_lines-IsScan i (line ∷ lines) s h =
      let step =
        scan_line loads loosen_reconciler_boundary compress_trivial_reconcile_enabled i line s in
      Ensures-bind (IsScan (i + length (line ∷ lines))) step _ (λ s' e.
        Ensures-map (IsScan (suc i + length lines)) (IsScan (i + length (line ∷ lines)))
          (scan_lines loads loosen_reconciler_boundary compress_trivial_reconcile_enabled (suc i)
            lines s')
          (λ x k. subst (λ n. IsScan n x) (omega arith) k)
          (scan_lines-IsScan (suc i) lines s'
            (Ensures-ok (IsScan (suc i)) step (scan_line-IsScan i line s h) e)))

  pub scanned-IsScan :
      (lines : List String) (s : ReconcilerScan)
      → scan_lines loads loosen_reconciler_boundary compress_trivial_reconcile_enabled 0 lines
          init_scan
        ≡ ok s
      → IsScan (length lines) s
  scanned-IsScan lines s e =
      subst (λ n. IsScan n s) (omega arith)
        (Ensures-ok (IsScan (0 + length lines))
          (scan_lines loads loosen_reconciler_boundary compress_trivial_reconcile_enabled 0 lines
            init_scan)
          (scan_lines-IsScan 0 lines init_scan init_scan-IsScan) e)
