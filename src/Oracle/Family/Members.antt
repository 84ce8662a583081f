-- ===== src/Oracle/Family/Members.antt =====
-- What `generate_controller_related_list` returns: the keys of the objects in the closure, sorted.
use sieve.Prelude.{
  suc, String, ◌==◌, ◌≡◌, refl, ap, subst, ◌↔◌, inl, inr, true, Bool-cases, ◌||◌, ◌&&◌, not, List,
  [], ◌∷◌, some, Among, arith, eq_iff, contains, insert_sorted, length, Result, ok, map_result,
  text_le,
}
use sieve.Json.{Value}
use sieve.Event.Records.{ApiEvent}
use sieve.Oracle.Log.{api_events}
use sieve.Oracle.Family.{
  Uid, has_uid, Node, all_uids, taint, seeds, related_keys, with_node, nodes, related_uids,
  generate_controller_related_list,
}
use sieve.Oracle.Family.Closure.{Related}
use sieve.Oracle.Family.Fuel.{taint-IsClosure}

contains-insert_sorted :
    (k s : String) (xs : List String)
    → contains k (insert_sorted s xs) ≡ ((s == k) || contains k xs)
unfolding contains insert_sorted
contains-insert_sorted k s [] = ground arith
contains-insert_sorted k s (x ∷ xs) =
    let e = contains-insert_sorted k s xs in
    elim (Bool-cases (text_le s x)) [ inl f ↦ rw f refl | inr f ↦ rw f (ground arith) ]

-- An event of the log whose object is tied to the seeds, and whose key is the one asked for.
abbrev pub IsMember : List Uid → List (ApiEvent × Node) → String → Type 0
IsMember s es k = (e : ApiEvent × Node) × Among e es × (has_uid e.1.uid s ≡ true) × (e.0.key ≡ k)

IsMember-later :
    (s : List Uid) (e : ApiEvent × Node) (es : List (ApiEvent × Node)) (k : String)
    → IsMember s es k
    → IsMember s (e ∷ es) k
IsMember-later s e es k (e', p, m, q) = (e', inr p, m, q)

related_keys-IsMember :
    (s : List Uid) (es : List (ApiEvent × Node)) (k : String)
    → contains k (related_keys s es) ≡ true
    → IsMember s es k
unfolding contains related_keys
related_keys-IsMember s [] k h = cc
related_keys-IsMember s (e ∷ es) k h =
    let later = related_keys-IsMember s es k in
    let new = contains-insert_sorted k e.0.key (related_keys s es) in
    elim (Bool-cases (has_uid e.1.uid s && not (contains e.0.key (related_keys s es)))) [
      | inr f ↦ IsMember-later s e es k (later (rw f at h))
      | inl f ↦
          let h' : contains k (insert_sorted e.0.key (related_keys s es)) ≡ true = rw f at h in
          elim (Bool-cases (e.0.key == k)) [
            | inl q ↦ (e, inl refl, ground arith, (eq_iff e.0.key k).0 q)
            | inr q ↦ IsMember-later s e es k (later (ground arith))
          ]
    ]

IsMember-related_keys :
    (s : List Uid) (es : List (ApiEvent × Node)) (k : String)
    → IsMember s es k
    → contains k (related_keys s es) ≡ true
unfolding contains related_keys
IsMember-related_keys s [] k (e, p, m, q) = elim p [ ]
IsMember-related_keys s (e ∷ es) k (e', p, m, q) =
    let new = contains-insert_sorted k e.0.key (related_keys s es) in
    elim p [
      | inr p' ↦
          let old = IsMember-related_keys s es k (e', p', m, q) in
          elim (Bool-cases (has_uid e.1.uid s && not (contains e.0.key (related_keys s es)))) [
            | inl f ↦ rw f (ground arith)
            | inr f ↦ rw f old
          ]
      | inl same ↦
          let m' : has_uid e.1.uid s ≡ true = subst (λ x. has_uid x.1.uid s ≡ true) same m in
          let q' : e.0.key ≡ k = subst (λ x. x.0.key ≡ k) same q in
          let b = (eq_iff e.0.key k).1 q' in
          elim (Bool-cases (contains e.0.key (related_keys s es))) [
            | inl f ↦ rw (m', f) (subst (λ x. contains x (related_keys s es) ≡ true) q' f)
            | inr f ↦ rw (m', f) (ground arith)
          ]
    ]

related_uids-taint :
    (ns : List Node) (s t : List Uid)
    → taint (suc (length (all_uids ns))) ns s ≡ some t
    → related_uids ns s ≡ t
unfolding related_uids
related_uids-taint ns s t h = rw (h, related_uids) refl

-- If the events of a log are read, `s` are the uids of the controller's pods and of their owners, and
-- `es` are the events with their uids and owners, then `generate_controller_related_list` returns a
-- list, and a key is in it exactly if it is the key of an event whose uid is tied to one of `s` by
-- owner references, in either direction and in any number of steps.
pub generate_controller_related_list-IsMember :
    (loads : String → Result Value) (lines : List String) (events : List ApiEvent) (s : List Uid)
    (es : List (ApiEvent × Node))
    → api_events loads lines ≡ ok events
    → seeds events ≡ ok s
    → map_result with_node events ≡ ok es
    → (keys : List String) × (generate_controller_related_list loads lines ≡ ok keys)
      × ((k : String)
          → (contains k keys ≡ true)
            ↔ ((e : ApiEvent × Node) × Among e es × Related (nodes es) s e.1.uid × (e.0.key ≡ k)))
unfolding generate_controller_related_list
generate_controller_related_list-IsMember loads lines events s es read first known =
    let (t, ended, closure) =
      taint-IsClosure (suc (length (all_uids (nodes es)))) (nodes es) s (omega arith) in
    (
      related_keys t es,
      rw (read, first, known)
          (ap (λ u. ok (related_keys u es)) (related_uids-taint (nodes es) s t ended)),
      λ k. (
        λ h. let (e, p, m, q) = related_keys-IsMember t es k h in (e, p, (closure e.1.uid).0 m, q),
        λ (e, p, r, q). IsMember-related_keys t es k (e, p, (closure e.1.uid).1 r, q),
      ),
    )
