-- ===== src/Oracle/Family/Fuel.antt =====
-- The loop of `generate_controller_related_list` ends: a round that goes on has added a uid of an
-- event or of an owner, and there are finitely many of those.
use sieve.Prelude.{
  ℕ, zero, suc, ◌+◌, ◌≤◌, ◌<◌, ◌≡◌, refl, sym, ◌↔◌, ◌⊎◌, inl, inr, true, false, Bool-cases, List,
  [], ◌∷◌, ◌++◌, Option, some, Among, arith, if◌then◌else◌, length,
}
use sieve.Oracle.Family.{
  Uid, has_uid, Node, Taint, add_owner, add_owned, taint_owners, taint_self, taint_event,
  taint_round, taint, all_uids,
}
use sieve.Oracle.Family.Closure.{
  uid_eq_iff, Related, Sound, taint_round-Sound, taint_round-Quiet, Related-closed,
}

abbrev Sub : List Uid → List Uid → Type 0
Sub s s' = (u : Uid) → has_uid u s ≡ true → has_uid u s' ≡ true

-- How many members of a list a set does not have.
abbrev missing : List Uid → List Uid → ℕ
missing s [] = 0
missing s (u ∷ us) = (if has_uid u s then 0 else 1) + missing s us

missing-length : (s us : List Uid) → missing s us ≤ length us
missing-length s [] = omega arith
missing-length s (u ∷ us) = ground (arith, missing-length s us)

missing-Sub : (s s' us : List Uid) → Sub s s' → missing s' us ≤ missing s us
missing-Sub s s' [] h = omega arith
missing-Sub s s' (u ∷ us) h = let k = h u in ground (arith, missing-Sub s s' us h)

missing-less :
    (s s' us : List Uid) (u : Uid)
    → Sub s s'
    → Among u us
    → has_uid u s ≡ false
    → has_uid u s' ≡ true
    → missing s' us < missing s us
missing-less s s' [] u h p new old = elim p [ ]
missing-less s s' (v ∷ us) u h (inl e) new old =
    rw (sym e, new, old) (let k = missing-Sub s s' us h in omega arith)
missing-less s s' (v ∷ us) u h (inr p) new old =
    let k = h v in ground (arith, missing-less s s' us u h p new old)

has_uid_self : (u : Uid) (s : List Uid) → has_uid u (u ∷ s) ≡ true
unfolding has_uid
has_uid_self u s = let e = (uid_eq_iff u u).1 refl in ground arith

Sub-cons : (v : Uid) (s : List Uid) → Sub s (v ∷ s)
unfolding has_uid
Sub-cons v s u h = ground arith

-- What a step does: it keeps the members, and to ask for another round it adds one of the list.
abbrev Grows : List Uid → Taint → Taint → Type 0
Grows us t t' = Sub t.0 t'.0 × (t'.1 ≡ true → (t.1 ≡ true) ⊎ (missing t'.0 us < missing t.0 us))

Grows-trans : (us : List Uid) (a b c : Taint) → Grows us a b → Grows us b c → Grows us a c
Grows-trans us a b c (sub, less) (sub', less') = (
  λ u m. sub' u (sub u m),
  λ e.
      let k = missing-Sub a.0 b.0 us sub in
      let k' = missing-Sub b.0 c.0 us sub' in
      elim (less' e) [
        | inl e' ↦ elim (less e') [ inl e'' ↦ inl e'' | inr l ↦ inr (omega arith) ]
        | inr l ↦ inr (omega arith)
      ],
)

Grows-add :
    (us : List Uid) (u : Uid) (t : Taint)
    → Among u us
    → has_uid u t.0 ≡ false
    → Grows us t (u ∷ t.0, true)
Grows-add us u t p new = (
  Sub-cons u t.0,
  λ _. inr (missing-less t.0 (u ∷ t.0) us u (Sub-cons u t.0) p new (has_uid_self u t.0)),
)

add_owner-Grows : (us : List Uid) (o : Uid) (t : Taint) → Among o us → Grows us t (add_owner o t)
unfolding add_owner
add_owner-Grows us o t p = elim (Bool-cases (has_uid o t.0)) [
  | inl e ↦ rw e (λ u m. m, λ k. inl k)
  | inr e ↦ rw e (Grows-add us o t p e)
]

taint_owners-Grows :
    (us os : List Uid) (t : Taint)
    → ((o : Uid) → Among o os → Among o us)
    → Grows us t (taint_owners os t)
unfolding taint_owners
taint_owners-Grows us [] t sub = (λ u m. m, λ k. inl k)
taint_owners-Grows us (o ∷ os) t sub =
    Grows-trans us t (add_owner o t) (taint_owners os (add_owner o t))
      (add_owner-Grows us o t (sub o (inl refl)))
      (taint_owners-Grows us os (add_owner o t) (λ o' p. sub o' (inr p)))

-- An object that a round has added is one that asks for another round.
abbrev Asks : Uid → Taint → Type 0
Asks uid t = has_uid uid t.0 ≡ true → t.1 ≡ true

add_owned-Grows :
    (us : List Uid) (uid o : Uid) (t : Taint)
    → Among uid us
    → Asks uid t
    → Grows us t (add_owned uid o t) × Asks uid (add_owned uid o t)
unfolding add_owned
add_owned-Grows us uid o t p asks = elim (Bool-cases (has_uid o t.0)) [
  | inl e ↦ rw e (elim (Bool-cases (has_uid uid t.0)) [
    | inl old ↦ ((Sub-cons uid t.0, λ _. inl (asks old)), λ _. refl)
    | inr new ↦ (Grows-add us uid t p new, λ _. refl)
  ])
  | inr e ↦ rw e ((λ u m. m, λ k. inl k), asks)
]

taint_self-Grows :
    (us : List Uid) (uid : Uid) (os : List Uid) (t : Taint)
    → Among uid us
    → Asks uid t
    → Grows us t (taint_self uid os t)
unfolding taint_self
taint_self-Grows us uid [] t p asks = (λ u m. m, λ k. inl k)
taint_self-Grows us uid (o ∷ os) t p asks =
    let (g, asks') = add_owned-Grows us uid o t p asks in
    Grows-trans us t (add_owned uid o t) (taint_self uid os (add_owned uid o t)) g
      (taint_self-Grows us uid os (add_owned uid o t) p asks')

taint_event-Grows :
    (us : List Uid) (n : Node) (t : Taint)
    → Among n.uid us
    → ((o : Uid) → Among o n.owners → Among o us)
    → Grows us t (taint_event n t)
unfolding taint_event
taint_event-Grows us n t p sub = elim (Bool-cases (has_uid n.uid t.0)) [
  | inl e ↦ rw e (taint_owners-Grows us n.owners t sub)
  | inr e ↦ rw e (taint_self-Grows us n.uid n.owners t p (λ m. cc))
]

Among-left : (u : Uid) (xs ys : List Uid) → Among u xs → Among u (xs ++ ys)
Among-left u [] ys p = elim p [ ]
Among-left u (x ∷ xs) ys (inl e) = inl e
Among-left u (x ∷ xs) ys (inr p) = inr (Among-left u xs ys p)

Among-right : (u : Uid) (xs ys : List Uid) → Among u ys → Among u (xs ++ ys)
Among-right u [] ys p = p
Among-right u (x ∷ xs) ys p = inr (Among-right u xs ys p)

taint_round-Grows :
    (us : List Uid) (ns : List Node) (t : Taint)
    → ((u : Uid) → Among u (all_uids ns) → Among u us)
    → Grows us t (taint_round ns t)
unfolding taint_round all_uids
taint_round-Grows us [] t sub = (λ u m. m, λ k. inl k)
taint_round-Grows us (n ∷ ns) t sub =
    Grows-trans us t (taint_event n t) (taint_round ns (taint_event n t))
      (taint_event-Grows us n t (sub n.uid (inl refl))
        (λ o p. sub o (inr (Among-left o n.owners (all_uids ns) p))))
      (taint_round-Grows us ns (taint_event n t)
        (λ u p. sub u (inr (Among-right u n.owners (all_uids ns) p))))

abbrev pub IsClosure : List Node → List Uid → Option (List Uid) → Type 0
IsClosure ns s₀ answer =
    (s : List Uid) × (answer ≡ some s) × ((u : Uid) → (has_uid u s ≡ true) ↔ Related ns s₀ u)

taint-IsClosure-from :
    (fuel : ℕ) (ns : List Node) (s₀ s : List Uid)
    → missing s (all_uids ns) < fuel
    → Sub s₀ s
    → Sound ns s₀ s
    → IsClosure ns s₀ (taint fuel ns s)
unfolding taint
taint-IsClosure-from zero ns s₀ s l sub h = let k : zero ≡ suc zero = omega arith in cc
taint-IsClosure-from (suc fuel) ns s₀ s l sub h =
    let t = taint_round ns (s, false) in
    let (sub', less) = taint_round-Grows (all_uids ns) ns (s, false) (λ u p. p) in
    let h' = taint_round-Sound ns s₀ ns (s, false) (λ n p. p) h in
    elim (Bool-cases t.1) [
      | inl e ↦
          rw (e, taint)
            (taint-IsClosure-from fuel ns s₀ t.0
              (elim (less e) [ inl k ↦ cc | inr k ↦ omega arith ]) (λ u m. sub' u (sub u m)) h')
      | inr e ↦
          let (k, same, closed) = taint_round-Quiet ns (s, false) e in
          rw (e, taint) (t.0, refl, λ u. (h' u, λ r. sub' u (Related-closed ns s₀ s sub closed r)))
    ]

-- With more fuel than there are uids in the events and their owner references, the tainting loop
-- ends, and the uids in the set it leaves are those that are tied to a seed by owner references, in
-- either direction and in any number of steps.
pub taint-IsClosure :
    (fuel : ℕ) (ns : List Node) (s : List Uid)
    → length (all_uids ns) < fuel
    → IsClosure ns s (taint fuel ns s)
taint-IsClosure fuel ns s l =
    taint-IsClosure-from fuel ns s s (let k = missing-length s (all_uids ns) in omega arith)
      (λ u m. m) (λ u m. Related.seed m)
