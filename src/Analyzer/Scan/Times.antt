-- ===== src/Analyzer/Scan/Times.antt =====
-- `ts_to_event_map` of sieve_analyzer/analyze.py, from line numbers to events, and its sorted values.
use sieve.Prelude.{
  ℕ, ◌<◌, ◌≡◌, ◌≢◌, subst, List, [], ◌∷◌, Bool-cases, inl, inr, All, arith, nat_eq, leb,
  if◌then◌else◌,
}
use sieve.Graph.Types.{Event}

abbrev pub EventMap : Type 0
EventMap = List (ℕ × Event)

-- `ts_to_event_map[ts] = event`
unfoldable pub put : ℕ → Event → EventMap → EventMap
put t e [] = (t, e) ∷ []
put t e ((u, f) ∷ d) = if nat_eq u t then (u, e) ∷ d else (u, f) ∷ put t e d

unfoldable pub insert_by_time : ℕ × Event → EventMap → EventMap
insert_by_time p [] = p ∷ []
insert_by_time p (q ∷ d) =
    let rest = insert_by_time p d in if leb p.0 q.0 then p ∷ q ∷ d else q ∷ rest

-- `sorted(ts_to_event_map.items())`; the times differ, so the events are not compared.
unfoldable pub sorted_items : EventMap → EventMap
unfolding insert_by_time
sorted_items [] = []
sorted_items (p ∷ d) = insert_by_time p (sorted_items d)

unfoldable pub events_of : EventMap → List Event
events_of [] = []
events_of (p ∷ d) = p.1 ∷ events_of d

unfoldable pub sorted_events : EventMap → List Event
unfolding sorted_items events_of
sorted_events d = events_of (sorted_items d)

-- No two entries have the same time.
abbrev pub HasDistinctTimes : EventMap → Type 0
HasDistinctTimes [] = Unit
HasDistinctTimes (p ∷ d) = All (λ q. q.0 ≢ p.0) d × HasDistinctTimes d

abbrev pub IsIncreasing : EventMap → Type 0
IsIncreasing [] = Unit
IsIncreasing (p ∷ d) = All (λ q. p.0 < q.0) d × IsIncreasing d

pub All-put :
    (P : ℕ × Event → Type 0) (t : ℕ) (e : Event) (d : EventMap)
    → P (t, e)
    → All P d
    → All P (put t e d)
unfolding put
All-put P t e [] p h = (p, tt)
All-put P t e ((u, f) ∷ d) p h = elim (Bool-cases (nat_eq u t)) [
  | inl s ↦ rw s (let same : t ≡ u = ground arith in (subst (λ x. P (x, e)) same p, h.1))
  | inr s ↦ rw s (h.0, All-put P t e d p h.1)
]

pub put-HasDistinctTimes :
    (t : ℕ) (e : Event) (d : EventMap) → HasDistinctTimes d → HasDistinctTimes (put t e d)
unfolding put
put-HasDistinctTimes t e [] h = (tt, tt)
put-HasDistinctTimes t e ((u, f) ∷ d) h = elim (Bool-cases (nat_eq u t)) [
  | inl s ↦ rw s h
  | inr s ↦
      rw s (All-put (λ q. q.0 ≢ u) t e d (λ k. ground arith) h.0, put-HasDistinctTimes t e d h.1)
]

All-insert_by_time :
    (P : ℕ × Event → Type 0) (p : ℕ × Event) (d : EventMap)
    → P p
    → All P d
    → All P (insert_by_time p d)
unfolding insert_by_time
All-insert_by_time P p [] h k = (h, tt)
All-insert_by_time P p (q ∷ d) h k = elim (Bool-cases (leb p.0 q.0)) [
  | inl s ↦ rw s (h, k)
  | inr s ↦ rw s (k.0, All-insert_by_time P p d h k.1)
]

pub All-sorted_items : (P : ℕ × Event → Type 0) (d : EventMap) → All P d → All P (sorted_items d)
unfolding sorted_items
All-sorted_items P [] h = tt
All-sorted_items P (p ∷ d) h =
    All-insert_by_time P p (sorted_items d) h.0 (All-sorted_items P d h.1)

All-weaken :
    (P Q : ℕ × Event → Type 0) (d : EventMap) → ((q : ℕ × Event) → P q → Q q) → All P d → All Q d
All-weaken P Q [] f h = tt
All-weaken P Q (q ∷ d) f h = (f q h.0, All-weaken P Q d f h.1)

insert_by_time-IsIncreasing :
    (p : ℕ × Event) (d : EventMap)
    → All (λ q. q.0 ≢ p.0) d
    → IsIncreasing d
    → IsIncreasing (insert_by_time p d)
unfolding insert_by_time
insert_by_time-IsIncreasing p [] n h = (tt, tt)
insert_by_time-IsIncreasing p (q ∷ d) n h = elim (Bool-cases (leb p.0 q.0)) [
  | inl s ↦
      let l : p.0 < q.0 = (let k = n.0 in ground arith) in
      rw s ((l, All-weaken (λ r. q.0 < r.0) (λ r. p.0 < r.0) d (λ r k. omega arith) h.0), h)
  | inr s ↦
      let l : q.0 < p.0 = ground arith in
      rw s (All-insert_by_time (λ r. q.0 < r.0) p d l h.0, insert_by_time-IsIncreasing p d n.1 h.1)
]

pub sorted_items-IsIncreasing : (d : EventMap) → HasDistinctTimes d → IsIncreasing (sorted_items d)
unfolding sorted_items
sorted_items-IsIncreasing [] h = tt
sorted_items-IsIncreasing (p ∷ d) h =
    insert_by_time-IsIncreasing p (sorted_items d) (All-sorted_items (λ q. q.0 ≢ p.0) d h.0)
      (sorted_items-IsIncreasing d h.1)
