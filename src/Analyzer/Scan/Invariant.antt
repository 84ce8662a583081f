-- ===== src/Analyzer/Scan/Invariant.antt =====
-- What every state of the scan of `parse_reconciler_events` satisfies.
use sieve.Prelude.{
  ℕ, suc, ◌<◌, String, ◌==◌, ◌≡◌, refl, sym, ◌∙◌, subst, Bool, true, false, Bool-cases, inl, inr,
  [], ◌∷◌, Option, some, ℤ, pos, All, arith, eq_iff, eq_cases, suc,
}
use sieve.Prelude.Dict.{Dict, lookup, insert, lookup-insert}
use sieve.Graph.Types.{Event, hear, write, non_k8s_write, read, begin, finish}
use sieve.Analyzer.Scan.Times.{put, HasDistinctTimes, All-put, put-HasDistinctTimes}
use sieve.Analyzer.Scan.{
  Reconcile, fun_of, end_of, ended_at, event_of, ReconcilerScan, init_scan, not_trivial, advance,
}

-- The time under which the scan files an event: the start of a write, the end of everything else.
abbrev pub time_of : Event → ℤ
time_of (hear h) = h.start_timestamp
time_of (write w) = w.start_timestamp
time_of (non_k8s_write w) = w.start_timestamp
time_of (read r) = r.end_timestamp
time_of (begin r) = r.end_timestamp
time_of (finish r) = r.end_timestamp

-- A reconcile that was read from a line before line `i`.
abbrev pub IsBefore : ℕ → Reconcile → Type 0
IsBefore i r = (n : ℕ) × (end_of r ≡ pos n) × (n < i)

abbrev pub IsBeforeIfAny : ℕ → Option Reconcile → Type 0
IsBeforeIfAny i o = (r : Reconcile) → o ≡ some r → IsBefore i r

-- What is kept for a function that has a current reconcile: the one before it, and whether the
-- current one is trivial.
abbrev pub IsKept : ℕ → ReconcilerScan → String → Type 0
IsKept i s fun =
    (r : Reconcile)
    → lookup fun s.cur_reconcile_per_type ≡ some r
    → IsBefore i r
      × ((o : Option Reconcile) × (lookup fun s.prev_reconcile_per_type ≡ some o)
          × IsBeforeIfAny i o)
      × ((b : Bool) × (lookup fun s.cur_reconcile_is_trivial ≡ some b))

-- The state in front of line `i`: at most one worker of each function is running, and every event is
-- filed under its own time, which no other event has.
pub record IsScan (i : ℕ) (s : ReconcilerScan) : Type 0 where
  pub kept : (fun : String) → IsKept i s fun
  pub single : (fun : String) (n : ℕ) → lookup fun s.ongoing_reconciles ≡ some n → n ≡ 1
  pub filed : All (λ p. time_of p.1 ≡ pos p.0) s.ts_to_event_map
  pub distinct : HasDistinctTimes s.ts_to_event_map

pub init_scan-IsScan : IsScan 0 init_scan
unfolding lookup
init_scan-IsScan = record {
  kept = λ fun r e. cc;
  single = λ fun n e. cc;
  filed = tt;
  distinct = tt;
}

IsBefore-suc : (i : ℕ) (r : Reconcile) → IsBefore i r → IsBefore (suc i) r
IsBefore-suc i r (n, e, l) = (n, e, omega arith)

pub IsScan-suc : (i : ℕ) (s : ReconcilerScan) → IsScan i s → IsScan (suc i) s
IsScan-suc i s h = record {
  kept = λ fun r e.
      let (now, (o, p, old), t) = h.kept fun r e in
      (IsBefore-suc i r now, (o, p, λ q f. IsBefore-suc i q (old q f)), t);
  single = h.single;
  filed = h.filed;
  distinct = h.distinct;
}

pub ended_at-IsBefore : (i : ℕ) (r : Reconcile) → IsBefore (suc i) (ended_at i r)
ended_at-IsBefore i (inl r) = (i, refl, omega arith)
ended_at-IsBefore i (inr r) = (i, refl, omega arith)

pub time_of-event_of : (i : ℕ) (r : Reconcile) → time_of (event_of (ended_at i r)) ≡ pos i
time_of-event_of i (inl r) = refl
time_of-event_of i (inr r) = refl

abbrev pub filed_at : ℕ → Event → ReconcilerScan → ReconcilerScan
filed_at t e s = record s { ts_to_event_map = put t e s.ts_to_event_map }

pub filed_at-IsScan :
    (i t : ℕ) (e : Event) (s : ReconcilerScan)
    → time_of e ≡ pos t
    → IsScan i s
    → IsScan i (filed_at t e s)
filed_at-IsScan i t e s q h = record {
  kept = h.kept;
  single = h.single;
  filed = All-put (λ p. time_of p.1 ≡ pos p.0) t e s.ts_to_event_map q h.filed;
  distinct = put-HasDistinctTimes t e s.ts_to_event_map h.distinct;
}

lookup-not_trivial :
    (k : String) (d : Dict Bool) (b : Bool)
    → lookup k d ≡ some b
    → lookup k (not_trivial d) ≡ some false
unfolding lookup not_trivial
lookup-not_trivial k [] b e = cc
lookup-not_trivial k ((j, c) ∷ d) b e = elim (Bool-cases (j == k)) [
  | inl q ↦ rw q refl
  | inr q ↦ rw q (lookup-not_trivial k d b (rw q at e))
]

abbrev pub untrivial : ReconcilerScan → ReconcilerScan
untrivial s = record s { cur_reconcile_is_trivial = not_trivial s.cur_reconcile_is_trivial }

pub untrivial-IsScan : (i : ℕ) (s : ReconcilerScan) → IsScan i s → IsScan i (untrivial s)
untrivial-IsScan i s h = record {
  kept = λ fun r e.
      let (now, prev, (b, t)) = h.kept fun r e in
      (now, prev, (false, lookup-not_trivial fun s.cur_reconcile_is_trivial b t));
  single = h.single;
  filed = h.filed;
  distinct = h.distinct;
}

abbrev pub marked : String → ReconcilerScan → ReconcilerScan
marked fun s = record s { cur_reconcile_is_trivial = insert fun true s.cur_reconcile_is_trivial }

lookup-insert-same :
    {V : Type 0} (k : String) (v : V) (d : Dict V) → lookup k (insert k v d) ≡ some v
lookup-insert-same k v d = lookup-insert k k v d ∙ rw ((eq_iff k k).1 refl) refl

lookup-insert-other :
    {V : Type 0} (k j : String) (v : V) (d : Dict V)
    → (k == j) ≡ false
    → lookup j (insert k v d) ≡ lookup j d
lookup-insert-other k j v d e = lookup-insert k j v d ∙ rw e refl

lookup-insert-some :
    (k j : String) (v : Bool) (d : Dict Bool) (b : Bool)
    → lookup j d ≡ some b
    → (c : Bool) × (lookup j (insert k v d) ≡ some c)
lookup-insert-some k j v d b e = elim (Bool-cases (k == j)) [
  | inl q ↦ (v, lookup-insert k j v d ∙ rw q refl)
  | inr q ↦ (b, lookup-insert-other k j v d q ∙ e)
]

pub marked-IsScan :
    (i : ℕ) (fun : String) (s : ReconcilerScan) → IsScan i s → IsScan i (marked fun s)
marked-IsScan i fun s h = record {
  kept = λ other r e.
      let (now, prev, (b, t)) = h.kept other r e in
      (now, prev, lookup-insert-some fun other true s.cur_reconcile_is_trivial b t);
  single = h.single;
  filed = h.filed;
  distinct = h.distinct;
}

pub advance-IsScan :
    (i : ℕ) (prev : Option Reconcile) (r : Reconcile) (s : ReconcilerScan)
    → IsBefore i r
    → IsBeforeIfAny i prev
    → IsScan i s
    → IsScan i (marked (fun_of r) (advance prev r s))
advance-IsScan i prev r s now old h = record {
  kept = λ other q e. elim (eq_cases (fun_of r) other) [
    | inl (same, _) ↦
        let e' : lookup other (insert other r s.cur_reconcile_per_type) ≡ some q = rw same at e in
        let found : r ≡ q = let found = lookup-insert-same other r s.cur_reconcile_per_type in cc in
        (
          subst (IsBefore i) found now,
          (prev, rw same (lookup-insert-same other prev s.prev_reconcile_per_type), old),
          (true, rw same (lookup-insert-same other true s.cur_reconcile_is_trivial)),
        )
    | inr (_, differ) ↦
        let (now', (o, p, old'), (b, t)) =
          h.kept other q
            (sym (lookup-insert-other (fun_of r) other r s.cur_reconcile_per_type differ) ∙ e) in
        (
          now',
          (o, lookup-insert-other (fun_of r) other prev s.prev_reconcile_per_type differ ∙ p, old'),
          (b, lookup-insert-other (fun_of r) other true s.cur_reconcile_is_trivial differ ∙ t),
        )
  ];
  single = h.single;
  filed = h.filed;
  distinct = h.distinct;
}
