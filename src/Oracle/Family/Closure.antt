-- ===== src/Oracle/Family/Closure.antt =====
-- The set of uids that the loop leaves is the closure of the seeds: an owner of a member is a member,
-- and so is an object that a member owns.
use sieve.Prelude.{
  ◌≡◌, refl, sym, ◌∙◌, subst, ◌↔◌, inl, inr, true, false, Bool-cases, List, [], ◌∷◌, none, some,
  Among, arith, eq_iff,
}
use sieve.Oracle.Family.{
  Uid, uid_eq, has_uid, Node, Taint, add_owner, add_owned, taint_owners, taint_self, taint_event,
  taint_round,
}

pub uid_eq_iff : (u v : Uid) → (uid_eq u v ≡ true) ↔ (u ≡ v)
unfolding uid_eq
uid_eq_iff none none = (λ h. refl, λ h. refl)
uid_eq_iff none (some s) = (λ h. cc, λ h. cc)
uid_eq_iff (some s) none = (λ h. cc, λ h. cc)
uid_eq_iff (some s) (some t) = ground (arith, eq_iff s t)

-- Tied to a member of a set by owner references, in either direction, in any number of steps.
pub data Related (ns : List Node) (s : List Uid) : Uid → Type 0 where
  seed : {u : Uid} → has_uid u s ≡ true → Related ns s u
  owner : {o : Uid} (n : Node) → Among n ns → Among o n.owners → Related ns s n.uid → Related ns s o
  owned : {o : Uid} (n : Node) → Among n ns → Among o n.owners → Related ns s o → Related ns s n.uid

module _ (ns : List Node) (s₀ : List Uid) where
  abbrev pub Sound : List Uid → Type 0
  Sound s = (u : Uid) → has_uid u s ≡ true → Related ns s₀ u

  Sound-cons : (v : Uid) (s : List Uid) → Related ns s₀ v → Sound s → Sound (v ∷ s)
  unfolding has_uid
  Sound-cons v s r h u m = elim (Bool-cases (uid_eq v u)) [
    | inl e ↦ subst (Related ns s₀) ((uid_eq_iff v u).0 e) r
    | inr e ↦ h u (ground arith)
  ]

  add_owner-Sound : (o : Uid) (t : Taint) → Related ns s₀ o → Sound t.0 → Sound (add_owner o t).0
  unfolding add_owner
  add_owner-Sound o t r h = elim (Bool-cases (has_uid o t.0)) [
    | inl e ↦ rw e h
    | inr e ↦ rw e (Sound-cons o t.0 r h)
  ]

  add_owned-Sound :
      (uid o : Uid) (t : Taint)
      → (Related ns s₀ o → Related ns s₀ uid)
      → Sound t.0
      → Sound (add_owned uid o t).0
  unfolding add_owned
  add_owned-Sound uid o t r h = elim (Bool-cases (has_uid o t.0)) [
    | inl e ↦ rw e (Sound-cons uid t.0 (r (h o e)) h)
    | inr e ↦ rw e h
  ]

  taint_owners-Sound :
      (n : Node) (os : List Uid) (t : Taint)
      → Among n ns
      → ((o : Uid) → Among o os → Among o n.owners)
      → Related ns s₀ n.uid
      → Sound t.0
      → Sound (taint_owners os t).0
  unfolding taint_owners
  taint_owners-Sound n [] t m sub r h = h
  taint_owners-Sound n (o ∷ os) t m sub r h =
      taint_owners-Sound n os (add_owner o t) m (λ o' p. sub o' (inr p)) r
        (add_owner-Sound o t (owner n m (sub o (inl refl)) r) h)

  taint_self-Sound :
      (n : Node) (os : List Uid) (t : Taint)
      → Among n ns
      → ((o : Uid) → Among o os → Among o n.owners)
      → Sound t.0
      → Sound (taint_self n.uid os t).0
  unfolding taint_self
  taint_self-Sound n [] t m sub h = h
  taint_self-Sound n (o ∷ os) t m sub h =
      taint_self-Sound n os (add_owned n.uid o t) m (λ o' p. sub o' (inr p))
        (add_owned-Sound n.uid o t (owned n m (sub o (inl refl))) h)

  taint_event-Sound : (n : Node) (t : Taint) → Among n ns → Sound t.0 → Sound (taint_event n t).0
  unfolding taint_event
  taint_event-Sound n t m h = elim (Bool-cases (has_uid n.uid t.0)) [
    | inl e ↦ rw e (taint_owners-Sound n n.owners t m (λ o p. p) (h n.uid e) h)
    | inr e ↦ rw e (taint_self-Sound n n.owners t m (λ o p. p) h)
  ]

  pub taint_round-Sound :
      (ms : List Node) (t : Taint)
      → ((n : Node) → Among n ms → Among n ns)
      → Sound t.0
      → Sound (taint_round ms t).0
  unfolding taint_round
  taint_round-Sound [] t sub h = h
  taint_round-Sound (n ∷ ms) t sub h =
      taint_round-Sound ms (taint_event n t) (λ m p. sub m (inr p))
        (taint_event-Sound n t (sub n (inl refl)) h)

-- What a round that adds nothing shows of an object.
abbrev pub IsClosedAt : List Uid → Node → Type 0
IsClosedAt s n =
    ((has_uid n.uid s ≡ true) → (o : Uid) → Among o n.owners → has_uid o s ≡ true)
    × ((o : Uid) → Among o n.owners → has_uid o s ≡ true → has_uid n.uid s ≡ true)

-- A step that ends without `keep_tainting` has changed nothing, and found a fact.
abbrev pub Quiet : Type 0 → Taint → Taint → Type 0
Quiet P t t' = t'.1 ≡ false → (t.1 ≡ false) × (t'.0 ≡ t.0) × P

add_owner-Quiet : (o : Uid) (t : Taint) → Quiet (has_uid o t.0 ≡ true) t (add_owner o t)
unfolding add_owner
add_owner-Quiet o t q = elim (Bool-cases (has_uid o t.0)) [
  | inl e ↦ (rw e at q, rw e refl, e)
  | inr e ↦ let k : true ≡ false = rw e at q in cc
]

add_owned-Quiet : (uid o : Uid) (t : Taint) → Quiet (has_uid o t.0 ≡ false) t (add_owned uid o t)
unfolding add_owned
add_owned-Quiet uid o t q = elim (Bool-cases (has_uid o t.0)) [
  | inl e ↦ let k : true ≡ false = rw e at q in cc
  | inr e ↦ (rw e at q, rw e refl, e)
]

taint_owners-Quiet :
    (os : List Uid) (t : Taint)
    → Quiet ((o : Uid) → Among o os → has_uid o t.0 ≡ true) t (taint_owners os t)
unfolding taint_owners
taint_owners-Quiet [] t q = (q, refl, λ o p. elim p [ ])
taint_owners-Quiet (o ∷ os) t q =
    let (k, e, h) = taint_owners-Quiet os (add_owner o t) q in
    let (k', e', h') = add_owner-Quiet o t k in
    (
      k',
      e ∙ e',
      λ o' p. elim p [
        | inl same ↦ subst (λ u. has_uid u t.0 ≡ true) (sym same) h'
        | inr r ↦ subst (λ s. has_uid o' s ≡ true) e' (h o' r)
      ],
    )

taint_self-Quiet :
    (uid : Uid) (os : List Uid) (t : Taint)
    → Quiet ((o : Uid) → Among o os → has_uid o t.0 ≡ false) t (taint_self uid os t)
unfolding taint_self
taint_self-Quiet uid [] t q = (q, refl, λ o p. elim p [ ])
taint_self-Quiet uid (o ∷ os) t q =
    let (k, e, h) = taint_self-Quiet uid os (add_owned uid o t) q in
    let (k', e', h') = add_owned-Quiet uid o t k in
    (
      k',
      e ∙ e',
      λ o' p. elim p [
        | inl same ↦ subst (λ u. has_uid u t.0 ≡ false) (sym same) h'
        | inr r ↦ subst (λ s. has_uid o' s ≡ false) e' (h o' r)
      ],
    )

taint_event-Quiet : (n : Node) (t : Taint) → Quiet (IsClosedAt t.0 n) t (taint_event n t)
unfolding taint_event
taint_event-Quiet n t q = elim (Bool-cases (has_uid n.uid t.0)) [
  | inl e ↦
      let (k, s, h) = taint_owners-Quiet n.owners t (rw e at q) in (k, rw e s, (λ _. h, λ o p m. e))
  | inr e ↦
      let (k, s, h) = taint_self-Quiet n.uid n.owners t (rw e at q) in
      (k, rw e s, (λ m. cc, λ o p m. let f = h o p in cc))
]

pub taint_round-Quiet :
    (ns : List Node) (t : Taint)
    → Quiet ((n : Node) → Among n ns → IsClosedAt t.0 n) t (taint_round ns t)
unfolding taint_round
taint_round-Quiet [] t q = (q, refl, λ n p. elim p [ ])
taint_round-Quiet (n ∷ ns) t q =
    let (k, e, h) = taint_round-Quiet ns (taint_event n t) q in
    let (k', e', h') = taint_event-Quiet n t k in
    (
      k',
      e ∙ e',
      λ m p. elim p [
        | inl same ↦ subst (IsClosedAt t.0) (sym same) h'
        | inr r ↦ subst (λ s. IsClosedAt s m) e' (h m r)
      ],
    )

-- A closed set that has the seeds has all that is tied to them.
pub Related-closed :
    (ns : List Node) (s₀ s : List Uid)
    → ((u : Uid) → has_uid u s₀ ≡ true → has_uid u s ≡ true)
    → ((n : Node) → Among n ns → IsClosedAt s n)
    → {u : Uid} → Related ns s₀ u
    → has_uid u s ≡ true
Related-closed ns s₀ s sub closed (seed {u} m) = sub u m
Related-closed ns s₀ s sub closed (owner {o} n m p r) =
    (closed n m).0 (Related-closed ns s₀ s sub closed r) o p
Related-closed ns s₀ s sub closed (owned {o} n m p r) =
    (closed n m).1 o p (Related-closed ns s₀ s sub closed r)
