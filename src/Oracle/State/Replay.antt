-- ===== src/Oracle/State/Replay.antt =====
-- The state that `generate_state` finds is the one that the events leave when they are applied one
-- after another, from the start of the log.
use sieve.Prelude.{
  append_nil, String, ◌==◌, ◌≡◌, refl, sym, ap, ◌∙◌, subst, true, false, Bool-cases, ◌||◌, List, [],
  ◌∷◌, ◌++◌, Option, none, some, Result, ok, contains, if◌then◌else◌, is_some, eq_cases, arith, inl,
  inr, Option-cases, >>=-eq-ok, ok_inj,
}
use sieve.Prelude.Dict.{Dict, lookup, insert, erase, lookup-insert, lookup-erase}
use sieve.Json.{Value, Fields}
use sieve.Event.ApiTypes
use sieve.Event.Records.{ApiEvent}
use sieve.Event.Parse.{in_line, sieve_api_event_mark, parse_api_event}
use sieve.Oracle.Log.{api_events}
use sieve.Oracle.State.{reverse, EndState, add_event, add_events, generate_state}

-- The objects that exist after an event, and after a log of events.
unfoldable pub apply_event : ApiEvent → Dict Fields → Dict Fields
unfolding insert erase
apply_event e d = if e.etype == ApiTypes.deleted then erase e.key d else insert e.key e.obj_map d

unfoldable pub replay : List ApiEvent → Dict Fields → Dict Fields
unfolding apply_event
replay [] d = d
replay (e ∷ es) d = replay es (apply_event e d)

-- What a backward scan of the later events says of a key, if `o` was there before them.
abbrev seen : EndState → String → Option Fields → Option Fields
seen t k o = if contains k t.1 then none else elim (lookup k t.0) [ none ↦ o | some v ↦ some v ]

lookup-apply_event :
    (e : ApiEvent) (k : String) (d : Dict Fields)
    → lookup k (apply_event e d) ≡ (
        if e.key == k
        then (if e.etype == ApiTypes.deleted then none else some e.obj_map)
        else lookup k d)
unfolding apply_event
lookup-apply_event e k d = elim (Bool-cases (e.etype == ApiTypes.deleted)) [
  | inl b ↦ rw (b, apply_event) (lookup-erase e.key k d)
  | inr b ↦ rw (b, apply_event) (lookup-insert e.key k e.obj_map d)
]

-- A key that a later event has: what was there before does not matter.
seen-known :
    (t : EndState) (k : String) (o o' : Option Fields)
    → (contains k t.1 || is_some (lookup k t.0)) ≡ true
    → seen t k o ≡ seen t k o'
seen-known t k o o' h = elim (Bool-cases (contains k t.1)) [
  | inl c ↦ rw c refl
  | inr c ↦ elim (Option-cases (lookup k t.0)) [
    | inl n ↦ let f : false ≡ true = rw (c, n) at h in cc
    | inr (v, n) ↦ rw (c, n) refl
  ]
]

-- A key that no later event has.
seen-new :
    (t : EndState) (k : String) (o : Option Fields)
    → (contains k t.1 || is_some (lookup k t.0)) ≡ false
    → seen t k o ≡ o
seen-new t k o h = elim (Bool-cases (contains k t.1)) [
  | inl c ↦ let f : true ≡ false = rw c at h in cc
  | inr c ↦ elim (Option-cases (lookup k t.0)) [
    | inl n ↦ rw (c, n) refl
    | inr (v, n) ↦ let f : true ≡ false = rw (c, n) at h in cc
  ]
]

unseen :
    (k : String) (t : EndState)
    → (contains k t.1 || is_some (lookup k t.0)) ≡ false
    → (contains k t.1 ≡ false) × (lookup k t.0 ≡ none)
unseen k t h = elim (Option-cases (lookup k t.0)) [
  | inl n ↦ (ground arith, n)
  | inr (v, n) ↦ let f : (contains k t.1 || true) ≡ false = rw n at h in ground arith
]

seen-deleted :
    (s : String) (t : EndState) (k : String) (o : Option Fields)
    → seen (t.0, s ∷ t.1) k o ≡ (if s == k then none else seen t k o)
unfolding contains
seen-deleted s t k o = elim (Bool-cases (s == k)) [ inl q ↦ rw q refl | inr q ↦ rw q refl ]

seen-insert :
    (s : String) (v : Fields) (t : EndState) (k : String) (o : Option Fields)
    → contains s t.1 ≡ false
    → seen (insert s v t.0, t.1) k o ≡ (if s == k then some v else seen t k o)
seen-insert s v t k o h = elim (eq_cases s k) [
  | inl (same, q) ↦
      let h' : contains k t.1 ≡ false = subst (λ x. contains x t.1 ≡ false) same h in
      rw (h', lookup-insert s k v t.0, q) refl
  | inr (_, q) ↦ rw (lookup-insert s k v t.0, q) refl
]

-- What an event leaves of a key.
abbrev left_by : ApiEvent → String → Option Fields → Option Fields
left_by e k o =
    if e.key == k then (if e.etype == ApiTypes.deleted then none else some e.obj_map) else o

seen-left_by :
    (e : ApiEvent) (t : EndState) (k : String) (o x : Option Fields)
    → (contains e.key t.1 || is_some (lookup e.key t.0)) ≡ false
    → (if e.etype == ApiTypes.deleted then none else some e.obj_map) ≡ x
    → (if e.key == k then x else seen t k o) ≡ seen t k (left_by e k o)
seen-left_by e t k o x new h = elim (eq_cases e.key k) [
  | inl (same, q) ↦
      let new' = subst (λ y. (contains y t.1 || is_some (lookup y t.0)) ≡ false) same new in
      let now : left_by e k o ≡ x = rw q h in
      let first : (if e.key == k then x else seen t k o) ≡ x = rw q refl in
      first ∙ sym (seen-new t k (left_by e k o) new' ∙ now)
  | inr (_, q) ↦
      let now : left_by e k o ≡ o = rw q refl in
      let first : (if e.key == k then x else seen t k o) ≡ seen t k o = rw q refl in
      first ∙ ap (seen t k) (sym now)
]

-- The event before them takes part in the scan as it does in the replay.
seen-add_event :
    (e : ApiEvent) (t : EndState) (k : String) (o : Option Fields)
    → seen (add_event e t) k o ≡ seen t k (left_by e k o)
unfolding add_event
seen-add_event e t k o = elim (Bool-cases (contains e.key t.1 || is_some (lookup e.key t.0))) [
  | inl known ↦ elim (eq_cases e.key k) [
    | inl (same, q) ↦
        rw (known, add_event)
          (seen-known t k o (left_by e k o)
            (subst (λ x. (contains x t.1 || is_some (lookup x t.0)) ≡ true) same known))
    | inr (_, q) ↦ rw (known, add_event) (ap (seen t k) (rw q refl))
  ]
  | inr new ↦ elim (Bool-cases (e.etype == ApiTypes.deleted)) [
    | inl d ↦
        let h = seen-left_by e t k o none new (rw d refl) in
        let step : add_event e t ≡ (t.0, e.key ∷ t.1) = rw (new, d, add_event) refl in
        ap (λ s. seen s k o) step ∙ seen-deleted e.key t k o ∙ h
    | inr d ↦
        let h = seen-left_by e t k o (some e.obj_map) new (rw d refl) in
        let step : add_event e t ≡ (insert e.key e.obj_map t.0, t.1) =
          rw (new, d, add_event) refl in
        ap (λ s. seen s k o) step ∙ seen-insert e.key e.obj_map t k o (unseen e.key t new).0 ∙ h
  ]
]

add_events-append :
    (xs : List ApiEvent) (e : ApiEvent) (t : EndState)
    → add_events (xs ++ (e ∷ [])) t ≡ add_event e (add_events xs t)
unfolding add_events
add_events-append [] e t = refl
add_events-append (x ∷ xs) e t = add_events-append xs e (add_event x t)

lookup-replay :
    (es : List ApiEvent) (k : String) (d : Dict Fields)
    → lookup k (replay es d) ≡ seen (add_events (reverse es) ([], [])) k (lookup k d)
unfolding replay reverse add_events contains lookup
lookup-replay [] k d = refl
lookup-replay (e ∷ es) k d =
    lookup-replay es k (apply_event e d)
    ∙ ap (seen (add_events (reverse es) ([], [])) k) (lookup-apply_event e k d)
    ∙ sym (
        ap (λ t. seen t k (lookup k d)) (add_events-append (reverse es) e ([], []))
        ∙ seen-add_event e (add_events (reverse es) ([], [])) k (lookup k d))

-- A key is never both deleted and in the state.
abbrev IsApart : EndState → Type 0
IsApart t = (k : String) → contains k t.1 ≡ true → lookup k t.0 ≡ none

add_event-IsApart : (e : ApiEvent) (t : EndState) → IsApart t → IsApart (add_event e t)
unfolding add_event contains
add_event-IsApart e t h k = elim (Bool-cases (contains e.key t.1 || is_some (lookup e.key t.0))) [
  | inl known ↦ rw (known, add_event) (h k)
  | inr new ↦ elim (Bool-cases (e.etype == ApiTypes.deleted)) [
    | inl d ↦
        rw (new, d, add_event)
          (λ m. elim (eq_cases e.key k) [
            | inl (same, _) ↦ subst (λ x. lookup x t.0 ≡ none) same (unseen e.key t new).1
            | inr (_, q) ↦ h k (rw q at m)
          ])
    | inr d ↦
        rw (new, d, add_event)
          (λ m. elim (eq_cases e.key k) [
            | inl (same, _) ↦
                let n = (unseen e.key t new).0 in
                let n' : contains k t.1 ≡ false = subst (λ x. contains x t.1 ≡ false) same n in cc
            | inr (_, q) ↦ lookup-insert e.key k e.obj_map t.0 ∙ rw q (h k m)
          ])
  ]
]

add_events-IsApart : (es : List ApiEvent) (t : EndState) → IsApart t → IsApart (add_events es t)
unfolding add_events
add_events-IsApart [] t h = h
add_events-IsApart (e ∷ es) t h = add_events-IsApart es (add_event e t) (add_event-IsApart e t h)

seen-lookup : (t : EndState) (k : String) → IsApart t → seen t k none ≡ lookup k t.0
seen-lookup t k h = elim (Bool-cases (contains k t.1)) [
  | inl c ↦ rw c (sym (h k c))
  | inr c ↦ rw c (elim (Option-cases (lookup k t.0)) [ inl n ↦ rw n refl | inr (v, n) ↦ rw n refl ])
]

module _ (loads : String → Result Value) where
  api_events-skip :
      (line : String) (lines : List String)
      → in_line sieve_api_event_mark line ≡ false
      → api_events loads (line ∷ lines) ≡ api_events loads lines
  unfolding api_events
  api_events-skip line lines b = rw b refl

  api_events-marked :
      (line : String) (lines : List String) (e : ApiEvent) (es : List ApiEvent)
      → in_line sieve_api_event_mark line ≡ true
      → parse_api_event loads line ≡ ok e
      → api_events loads lines ≡ ok es
      → api_events loads (line ∷ lines) ≡ ok (e ∷ es)
  unfolding api_events
  api_events-marked line lines e es b p q = rw (b, p, q) refl

  -- The events of a log that starts with a line.
  api_events-line :
      (line : String) (lines : List String) (es : List ApiEvent)
      → api_events loads (line ∷ lines) ≡ ok es
      → (now : List ApiEvent) × (later : List ApiEvent) × ((others : List String)
            (fs : List ApiEvent)
          → api_events loads others ≡ ok fs
          → api_events loads (line ∷ others) ≡ ok (now ++ fs))
        × (api_events loads lines ≡ ok later)
        × (reverse es ≡ reverse later ++ now)
  unfolding api_events reverse
  api_events-line line lines es e = elim (Bool-cases (in_line sieve_api_event_mark line)) [
    | inl b ↦
        let (event, p, q) = >>=-eq-ok (parse_api_event loads line) _ (rw b at e) in
        let (later, p', q') = >>=-eq-ok (api_events loads lines) _ q in
        (
          event ∷ [],
          later,
          (λ others fs r. api_events-marked line others event fs b p r),
          p',
          subst (λ x. reverse x ≡ reverse later ++ (event ∷ [])) (ok_inj q') refl,
        )
    | inr b ↦ (
      [],
      es,
      (λ others fs r. api_events-skip line others b ∙ r),
      sym (api_events-skip line lines b) ∙ e,
      sym (append_nil (reverse es)),
    )
  ]

  api_events-append :
      (xs ys : List String) (es fs : List ApiEvent)
      → api_events loads xs ≡ ok es
      → api_events loads ys ≡ ok fs
      → api_events loads (xs ++ ys) ≡ ok (es ++ fs)
  unfolding api_events
  api_events-append [] ys es fs e f = subst (λ x. api_events loads ys ≡ ok (x ++ fs)) (ok_inj e) f
  api_events-append (x ∷ xs) ys es fs e f = elim (Bool-cases (in_line sieve_api_event_mark x)) [
    | inl b ↦
        let (event, p, q) = >>=-eq-ok (parse_api_event loads x) _ (rw b at e) in
        let (later, p', q') = >>=-eq-ok (api_events loads xs) _ q in
        api_events-marked x (xs ++ ys) event (later ++ fs) b p
          (api_events-append xs ys later fs p' f)
        ∙ ap (λ z. ok (z ++ fs)) (ok_inj q')
    | inr b ↦
        api_events-skip x (xs ++ ys) b
        ∙ api_events-append xs ys es fs (sym (api_events-skip x xs b) ∙ e) f
  ]

  api_events-reverse :
      (lines : List String) (es : List ApiEvent)
      → api_events loads lines ≡ ok es
      → api_events loads (reverse lines) ≡ ok (reverse es)
  unfolding api_events reverse
  api_events-reverse [] es e = subst (λ x. ok [] ≡ ok (reverse x)) (ok_inj e) refl
  api_events-reverse (line ∷ lines) es e =
      let (now, later, single, p, q) = api_events-line line lines es e in
      api_events-append (reverse lines) (line ∷ []) (reverse later) now
        (api_events-reverse lines later p) (single [] [] refl ∙ ap ok (append_nil now))
      ∙ ap ok (sym q)

  -- If the API events of a log are read as `es`, then `generate_state`, which reads the log from its
  -- end, returns a state, and it has for each key the object that the key has after the events are
  -- applied in their order: none after a deletion, and otherwise the object of the event.
  pub generate_state-replay :
      (lines : List String) (es : List ApiEvent)
      → api_events loads lines ≡ ok es
      → (state : Dict Fields) × (generate_state loads lines ≡ ok state)
        × ((k : String) → lookup k state ≡ lookup k (replay es []))
  unfolding generate_state lookup contains
  generate_state-replay lines es e =
      let t = add_events (reverse es) ([], []) in
      (
        t.0,
        rw (api_events-reverse lines es e) refl,
        λ k. sym (
            lookup-replay es k []
            ∙ seen-lookup t k (add_events-IsApart (reverse es) ([], []) (λ j m. refl))),
      )
