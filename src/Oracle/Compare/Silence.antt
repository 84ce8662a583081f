-- ===== src/Oracle/Compare/Silence.antt =====
-- What `compare_history_digests` has checked when it raises no alarm.
use sieve.Prelude.{
  String, ◌≡◌, refl, sym, ap, ◌∙◌, subst, Bool, true, false, Bool-cases, ◌||◌, List, [], ◌∷◌, some,
  ok, contains, sort_empty, append_empty, if◌then◌else◌, inl, inr, eq_cases, >>=-eq-ok, ok_inj,
  from_option, from_option-ok, key_error,
}
use sieve.Json.{Value, null, dict, Fields, end, field, get, has, same, is_str}
use sieve.Json.Laws.{has-get}
use sieve.Common.{sieve_learn_value_mask}
use sieve.Event.Keys.{item, as_dict}
use sieve.Oracle.Compare.{
  HistoryContext, compare_entry, is_skipped, compare_keys, compare_history_digests, inconsistency,
}

as_dict-ok : (v : Value) (d : Fields) → as_dict v ≡ ok d → v ≡ dict d
as_dict-ok (dict e) d h = ap dict (ok_inj h)
as_dict-ok null d h = cc
as_dict-ok (Value.bool b) d h = cc
as_dict-ok (Value.num n) d h = cc
as_dict-ok (Value.str t) d h = cc
as_dict-ok (Value.list xs) d h = cc

module _ (show : Value → String) (path_match : String → String → Bool) (c : HistoryContext) where
  -- The two counts of a type agree, or the reference count is masked.
  abbrev pub Agree : Value → Value → Type 0
  Agree testing reference =
      (is_str sieve_learn_value_mask reference || same testing reference) ≡ true

  compare_entry-Agree :
      (key : String) (entry types : Fields)
      → compare_entry show c key (dict entry) types ≡ ok []
      → (etype : String) (testing : Value) → get etype types ≡ some testing
      → contains etype c.state_update_summary_check_event_list ≡ true
      → (reference : Value) × (get etype entry ≡ some reference) × Agree testing reference
  unfolding compare_entry get item
  compare_entry-Agree key entry end e etype testing found checked = cc
  compare_entry-Agree key entry (field k v rest) e etype testing found checked =
      elim (Bool-cases (contains k c.state_update_summary_check_event_list)) [
        | inr b ↦
            let e' : compare_entry show c key (dict entry) rest ≡ ok [] = rw b at e in
            elim (eq_cases k etype) [
              | inl (s, _) ↦
                  let f : contains k c.state_update_summary_check_event_list ≡ true =
                    subst (λ x. contains x c.state_update_summary_check_event_list ≡ true) (sym s)
                      checked in
                  cc
              | inr (_, q) ↦
                  compare_entry-Agree key entry rest e' etype testing (rw q at found) checked
            ]
        | inl b ↦
            let (reference, p, e₁) =
              >>=-eq-ok (from_option key_error (get k entry)) _ (rw b at e) in
            let (messages, p', e₂) = >>=-eq-ok (compare_entry show c key (dict entry) rest) _ e₁ in
            let (agree, none_left) = quiet k v reference messages (ok_inj e₂) in
            elim (eq_cases k etype) [
              | inl (s, q) ↦
                  let v' : some v ≡ some testing = rw q at found in
                  (
                    reference,
                    subst (λ x. get x entry ≡ some reference) s
                        (from_option-ok key_error (get k entry) p),
                    subst (λ x. Agree x reference) (let w : v ≡ testing = cc in w) agree,
                  )
              | inr (_, q) ↦
                  compare_entry-Agree key entry rest (p' ∙ ap ok none_left) etype testing
                    (rw q at found) checked
            ]
      ]
    where
      quiet :
          (k : String) (v reference : Value) (messages : List String)
          → (if is_str sieve_learn_value_mask reference || same v reference
              then messages
              else inconsistency show key k reference v ∷ messages)
            ≡ []
          → Agree v reference × (messages ≡ [])
      quiet k v reference messages h =
          elim (Bool-cases (is_str sieve_learn_value_mask reference || same v reference)) [
            | inl b ↦ (b, rw b at h)
            | inr b ↦ let f : inconsistency show key k reference v ∷ messages ≡ [] = rw b at h in cc
          ]

  module _ (controller_family : List String) (canonicalized : Fields) where
    compare_keys-has :
        (key : String) (testing : Value) (rest : Fields) (entry : Value)
        → get key canonicalized ≡ some entry
        → has key canonicalized ≡ true
    compare_keys-has key testing rest entry found = has-get key canonicalized ∙ rw found refl

    -- The two parts of a loop that raises no alarm.
    compare_keys-first :
        (key : String) (testing : Value) (rest : Fields)
        → compare_keys show path_match c controller_family canonicalized (field key testing rest)
          ≡ ok []
        → (compare_keys show path_match c controller_family canonicalized rest ≡ ok [])
          × ((entry : Value)
              → get key canonicalized ≡ some entry
              → is_skipped show path_match c controller_family key entry ≡ false
              → (types : Fields) × (testing ≡ dict types)
                × (compare_entry show c key entry types ≡ ok []))
    unfolding compare_keys item
    compare_keys-first key testing rest e = elim (Bool-cases (has key canonicalized)) [
      | inr b ↦
          (rw b at e, λ entry found _. let f = compare_keys-has key testing rest entry found in cc)
      | inl b ↦
          let (entry, p, e₁) =
            >>=-eq-ok (from_option key_error (get key canonicalized)) _ (rw b at e) in
          elim (Bool-cases (is_skipped show path_match c controller_family key entry)) [
            | inl k ↦ (
              rw k at e₁,
              λ entry' found used.
                  let same_entry : some entry ≡ some entry' =
                    sym (from_option-ok key_error (get key canonicalized) p) ∙ found in
                  let g : entry ≡ entry' = cc in
                  let k' : is_skipped show path_match c controller_family key entry' ≡ true =
                    subst (λ x. is_skipped show path_match c controller_family key x ≡ true) g k in
                  cc,
            )
            | inr k ↦
                let (types, t, e₂) = >>=-eq-ok (as_dict testing) _ (rw k at e₁) in
                let (first, f, e₃) = >>=-eq-ok (compare_entry show c key entry types) _ e₂ in
                let (messages, m, e₄) =
                  >>=-eq-ok (compare_keys show path_match c controller_family canonicalized rest) _
                    e₃ in
                let (first_empty, rest_empty) = append_empty first messages (ok_inj e₄) in
                (
                  m ∙ ap ok rest_empty,
                  λ entry' found used.
                      let same_entry : some entry ≡ some entry' =
                        sym (from_option-ok key_error (get key canonicalized) p) ∙ found in
                      (
                        types,
                        as_dict-ok testing types t,
                        subst (λ x. compare_entry show c key x types ≡ ok [])
                            (let g : entry ≡ entry' = cc in g) (f ∙ ap ok first_empty),
                      ),
                )
          ]
    ]

    compare_keys-Agree :
        (testing : Fields)
        → compare_keys show path_match c controller_family canonicalized testing ≡ ok []
        → (key : String) (types entry : Fields) → get key testing ≡ some (dict types)
        → get key canonicalized ≡ some (dict entry)
        → is_skipped show path_match c controller_family key (dict entry) ≡ false
        → compare_entry show c key (dict entry) types ≡ ok []
    unfolding get
    compare_keys-Agree end e key types entry found known used = cc
    compare_keys-Agree (field k v rest) e key types entry found known used =
        let (later, first) = compare_keys-first k v rest e in
        elim (eq_cases k key) [
          | inr (_, q) ↦ compare_keys-Agree rest later key types entry (rw q at found) known used
          | inl (s, q) ↦
              let v' : some v ≡ some (dict types) = rw q at found in
              let (types', t, h) =
                first (dict entry)
                  (subst (λ x. get x canonicalized ≡ some (dict entry)) (sym s) known)
                  (subst
                    (λ x. is_skipped show path_match c controller_family x (dict entry) ≡ false)
                    (sym s) used) in
              let same_types : dict types' ≡ dict types = cc in
              subst (λ x. compare_entry show c x (dict entry) types ≡ ok []) s
                (subst (λ x. compare_entry show c k (dict entry) x ≡ ok [])
                  (let g : types' ≡ types = cc in g) h)
        ]

    -- If `compare_history_digests` returns no message, then for every key that both digests have, and
    -- that is neither in the controller's family nor masked, and every checked type that the testing
    -- digest counts for it, the reference digest has a count, which is masked or the same.
    pub compare_history_digests-Agree :
        (testing : Fields)
        → compare_history_digests show path_match c canonicalized testing controller_family ≡ ok []
        → (key etype : String) (types entry : Fields) (count : Value)
        → get key testing ≡ some (dict types)
        → get key canonicalized ≡ some (dict entry)
        → is_skipped show path_match c controller_family key (dict entry) ≡ false
        → get etype types ≡ some count
        → contains etype c.state_update_summary_check_event_list ≡ true
        → (reference : Value) × (get etype entry ≡ some reference) × Agree count reference
    unfolding compare_history_digests
    compare_history_digests-Agree testing e key etype types entry count found known used counted
          checked =
        let (messages, p, q) =
          >>=-eq-ok (compare_keys show path_match c controller_family canonicalized testing) _ e in
        let quiet = p ∙ ap ok (sort_empty messages (ok_inj q)) in
        compare_entry-Agree key entry types
          (compare_keys-Agree testing quiet key types entry found known used) etype count counted
          checked
