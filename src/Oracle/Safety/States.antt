-- ===== src/Oracle/Safety/States.antt =====
-- The states that `apply_safety_checker` has looked at when it raises no alarm.
use sieve.Prelude.{
  ℕ, ◌⊎◌, String, ◌==◌, ◌≡◌, refl, sym, ◌∙◌, subst, Bool, true, false, Bool-cases, not, ◌||◌, List,
  [], ◌∷◌, ◌++◌, Option, none, some, contains, sort_empty, append_empty, if◌then◌else◌, inl, inr,
  eq_cases,
}
use sieve.Prelude.Dict.{Dict, lookup, insert, lookup-insert}
use sieve.Oracle.History.{HistoryEntry}
use sieve.Oracle.Safety.{
  empty_state, update_state, all_exist, check_state, check_history, apply_safety_checker,
}

-- The state after a part of a history: the events on other objects are passed over.
unfoldable pub state_after :
    List String → List HistoryEntry → Dict (Option String) → Dict (Option String)
unfolding contains update_state
state_after resource_keys [] state = state
state_after resource_keys (event ∷ history) state =
    state_after resource_keys history
      (if contains event.key resource_keys then update_state event state else state)

-- The object of a key after a part of a history: that of the last event of the key.
unfoldable pub last_object : String → List HistoryEntry → Option String → Option String
last_object key [] obj = obj
last_object key (event ∷ history) obj = last_object key history (
    if event.key == key then (if event.etype == "DELETED" then none else some event.state) else obj)

lookup-update_state :
    (event : HistoryEntry) (key : String) (state : Dict (Option String))
    → lookup key (update_state event state) ≡ (
        if event.key == key
        then some (if event.etype == "DELETED" then none else some event.state)
        else lookup key state)
unfolding update_state
lookup-update_state event key state = elim (Bool-cases (event.etype == "DELETED")) [
  | inl b ↦ rw (b, update_state) (lookup-insert event.key key none state)
  | inr b ↦ rw (b, update_state) (lookup-insert event.key key (some event.state) state)
]

-- A key of the checker always has an entry, which is the object of its last event.
lookup-state_after :
    (resource_keys : List String) (history : List HistoryEntry) (key : String)
    (state : Dict (Option String)) (obj : Option String)
    → contains key resource_keys ≡ true
    → lookup key state ≡ some obj
    → lookup key (state_after resource_keys history state) ≡ some (last_object key history obj)
unfolding state_after last_object
lookup-state_after resource_keys [] key state obj k e = e
lookup-state_after resource_keys (event ∷ history) key state obj k e =
    lookup-state_after resource_keys history key
      (if contains event.key resource_keys then update_state event state else state)
      (if event.key == key
        then (if event.etype == "DELETED" then none else some event.state)
        else obj)
      k
      (elim (eq_cases event.key key) [
        | inl (same, q) ↦
            let c : contains event.key resource_keys ≡ true =
              subst (λ x. contains x resource_keys ≡ true) (sym same) k in
            rw (c, q) (lookup-update_state event key state ∙ rw q refl)
        | inr (_, q) ↦ elim (Bool-cases (contains event.key resource_keys)) [
          | inl c ↦ rw (c, q) (lookup-update_state event key state ∙ rw q e)
          | inr c ↦ rw (c, q) e
        ]
      ])

lookup-empty_state :
    (keys : List String) (key : String) (state : Dict (Option String))
    → (contains key keys ≡ true) ⊎ (lookup key state ≡ some none)
    → lookup key (empty_state keys state) ≡ some none
unfolding empty_state contains
lookup-empty_state [] key state (inl k) = cc
lookup-empty_state [] key state (inr e) = e
lookup-empty_state (j ∷ keys) key state h =
    let new = lookup-insert j key none state in
    lookup-empty_state keys key (insert j none state) (elim (eq_cases j key) [
      | inl (_, q) ↦ inr (new ∙ rw q refl)
      | inr (_, q) ↦ elim h [ inl k ↦ inl (rw q at k) | inr e ↦ inr (new ∙ rw q e) ]
    ])

holds_if : (a b : Bool) → (a ≡ true → b ≡ true) → (not a || b) ≡ true
holds_if true b h = h refl
holds_if false b h = refl

module _ (show_number : ℕ → String) (customized_checker : Dict (Option String) → Bool)
    (checker_name : String) (resource_keys : List String) where
  check_state-holds :
      (event : HistoryEntry) (state : Dict (Option String))
      → check_state show_number customized_checker checker_name event state ≡ []
      → all_exist state ≡ true
      → customized_checker state ≡ true
  unfolding check_state
  check_state-holds event state e all = elim (Bool-cases (customized_checker state)) [
    | inl b ↦ b
    | inr b ↦ let f = rw (all, b) at e in cc
  ]

  -- The messages of a history that goes on from a state.
  check_history-holds :
      (front : List HistoryEntry) (event : HistoryEntry) (back : List HistoryEntry)
      (state : Dict (Option String))
      → check_history show_number customized_checker checker_name resource_keys
          (front ++ (event ∷ back))
          state
        ≡ []
      → contains event.key resource_keys ≡ true
      → all_exist (state_after resource_keys (front ++ (event ∷ [])) state) ≡ true
      → customized_checker (state_after resource_keys (front ++ (event ∷ [])) state) ≡ true
  unfolding check_history state_after
  check_history-holds [] event back state e k all =
      let step = state_after-one event state k in
      let (quiet, _) =
        append_empty
          (check_state show_number customized_checker checker_name event (update_state event state))
          (check_history show_number customized_checker checker_name resource_keys back
            (update_state event state))
          (rw k at e) in
      subst (λ s. customized_checker s ≡ true) (sym step)
        (check_state-holds event (update_state event state) quiet
          (subst (λ s. all_exist s ≡ true) step all))
    where
      state_after-one :
          (event : HistoryEntry) (state : Dict (Option String))
          → contains event.key resource_keys ≡ true
          → (if contains event.key resource_keys then update_state event state else state)
            ≡ update_state event state
      state_after-one event state k = rw k refl
  check_history-holds (first ∷ front) event back state e k all =
      elim (Bool-cases (contains first.key resource_keys)) [
        | inr b ↦
            let skip : (if contains first.key resource_keys
                  then update_state first state
                  else state)
                ≡ state =
              rw b refl in
            subst
              (λ s. customized_checker (state_after resource_keys (front ++ (event ∷ [])) s) ≡ true)
              (sym skip)
              (check_history-holds front event back state (rw b at e) k (
                subst (λ s. all_exist (state_after resource_keys (front ++ (event ∷ [])) s) ≡ true)
                  skip all))
        | inl b ↦
            let step : (if contains first.key resource_keys
                  then update_state first state
                  else state)
                ≡ update_state first state =
              rw b refl in
            let (_, rest) =
              append_empty
                (check_state show_number customized_checker checker_name first
                  (update_state first state))
                (check_history show_number customized_checker checker_name resource_keys
                  (front ++ (event ∷ back)) (update_state first state))
                (rw b at e) in
            subst
              (λ s. customized_checker (state_after resource_keys (front ++ (event ∷ [])) s) ≡ true)
              (sym step)
              (check_history-holds front event back (update_state first state) rest k (
                subst (λ s. all_exist (state_after resource_keys (front ++ (event ∷ [])) s) ≡ true)
                  step all))
      ]

  -- The state after the last of these events.
  abbrev pub state_at : List HistoryEntry → HistoryEntry → Dict (Option String)
  state_at front event =
      state_after resource_keys (front ++ (event ∷ [])) (empty_state resource_keys [])

  -- If `apply_safety_checker` raises no alarm for a history, then after an event on one of the checker's
  -- objects the state has for each of their keys the object of the key's last event, or none after a
  -- deletion or without an event, and the checker holds for the state or an object of it does not exist.
  pub apply_safety_checker-holds :
      (front : List HistoryEntry) (event : HistoryEntry) (back : List HistoryEntry) (key : String)
      → apply_safety_checker show_number customized_checker checker_name resource_keys
          (front ++ (event ∷ back))
        ≡ []
      → contains event.key resource_keys ≡ true
      → contains key resource_keys ≡ true
      → (lookup key (state_at front event) ≡ some (last_object key (front ++ (event ∷ [])) none))
        × ((not (all_exist (state_at front event)) || customized_checker (state_at front event))
            ≡ true)
  unfolding apply_safety_checker
  apply_safety_checker-holds front event back key e k m =
      let start = empty_state resource_keys [] in
      (
        lookup-state_after resource_keys (front ++ (event ∷ [])) key start none m
            (lookup-empty_state resource_keys key [] (inl m)),
        holds_if (all_exist (state_at front event)) (customized_checker (state_at front event))
            (check_history-holds front event back start (sort_empty _ e) k),
      )
