-- ===== src/Oracle/Liveness/Keys.antt =====
-- What `compare_states` has checked of the objects when it returns no message.
use sieve.Prelude.{
  ℕ, String, ◌≡◌, sym, ap, ◌∙◌, subst, ◌⊎◌, inl, inr, Bool, true, false, Bool-cases, List, [], ◌∷◌,
  ◌++◌, Option, some, Result, ok, err, ◌>>=◌, All, Among, contains, add_to_set, sort, sort_empty,
  append_empty, if◌then◌else◌, eq_cases, Ensures, Ensures-ok, Ensures-bind, >>=-eq-ok, ok_inj,
  from_option, from_option-ok, key_error,
}
use sieve.Json.{Value, Fields, end, field, get, has, is_str}
use sieve.Common.{sieve_learn_value_mask}
use sieve.Event.Keys.{parse_key, item}
use sieve.Delta.Diff.{without_keys}
use sieve.Oracle.Masks.{
  StateContext, kind_native_objects, resource_key_should_be_masked,
  resource_type_should_be_masked_by_controller_config,
}
use sieve.Oracle.Liveness.{
  Delta, Objects, keys_of, with_testing, with_reference, with_masked, note_key, note_keys,
  existence_messages, number_messages, judge_deltas, compare_states, no_objects, all_keys,
  only_in_testing, only_in_reference, more_objects, not_in_reference, fewer_objects, not_in_testing,
}

All-contains :
    (P : String → Type 0) (t : String) (xs : List String) → contains t xs ≡ true → All P xs → P t
unfolding contains
All-contains P t [] e h = cc
All-contains P t (x ∷ xs) e h = elim (eq_cases x t) [
  | inl (same, _) ↦ subst P same h.0
  | inr (_, q) ↦ All-contains P t xs (rw q at e) h.1
]

add_to_set-All :
    (P : String → Type 0) (t : String) (xs : List String) → P t → All P xs → All P (add_to_set t xs)
unfolding add_to_set
add_to_set-All P t xs p h = elim (Bool-cases (contains t xs)) [
  | inl b ↦ rw b h
  | inr b ↦ rw b (p, h)
]

-- A type that has an object without a name of its own: the reference state masks it.
abbrev pub IsRandom : Fields → String → Type 0
IsRandom reference resource_type =
    (resource_key : String) × (v : Value) × (namespace : String) × (name : String) × (get
        resource_key reference
      ≡ some v)
    × (is_str sieve_learn_value_mask v ≡ true)
    × (parse_key resource_key ≡ ok (resource_type, namespace, name))

module _ (c : StateContext) (reference testing : Fields) where
  abbrev Known : Objects → Type 0
  Known o = All (IsRandom reference) o.resource_type_with_random_names

  with_testing-Known : (t k : String) (o : Objects) → Known o → Known (with_testing t k testing o)
  unfolding with_testing
  with_testing-Known t k o h = elim (Bool-cases (has k testing)) [ inl b ↦ rw b h | inr b ↦ rw b h ]

  with_masked-Known : (b : Bool) (t : String) (o : Objects) → Known o → Known (with_masked b t o)
  unfolding with_masked
  with_masked-Known true t o h = h
  with_masked-Known false t o h = h

  with_reference-Known :
      (t k namespace name : String) (o : Objects)
      → parse_key k ≡ ok (t, namespace, name)
      → Known o
      → Ensures Known (with_reference t k reference o)
  unfolding with_reference item
  with_reference-Known t k namespace name o p h = elim (Bool-cases (has k reference)) [
    | inr b ↦ rw b h
    | inl b ↦ rw b (
        Ensures-bind Known (from_option key_error (get k reference)) _ (λ v e.
          let found = from_option-ok key_error (get k reference) e in
          elim (Bool-cases (is_str sieve_learn_value_mask v)) [
            | inr m ↦ rw m h
            | inl m ↦ rw m (
                add_to_set-All (IsRandom reference) t o.resource_type_with_random_names
                  (k, v, namespace, name, found, m, p) h)
          ]))
  ]

  note_key-Known :
      (k : String) (o : Objects) → Known o → Ensures Known (note_key c reference testing k o)
  unfolding note_key
  note_key-Known k o h = Ensures-bind Known (kind_native_objects k) _ (λ native _.
      elim native
        as (λ b. Ensures Known (
          if b then ok o else (do
            (t, namespace, name) ← parse_key k
            with_reference t k reference (
                with_testing t k testing
                  (with_masked (resource_type_should_be_masked_by_controller_config c t) t o))))) [
                    | true ↦ h
                    | false ↦ Ensures-bind Known (parse_key k) _ (λ (t, namespace, name) p.
                        let masked = resource_type_should_be_masked_by_controller_config c t in
                        with_reference-Known t k namespace name
                          (with_testing t k testing (with_masked masked t o)) p
                          (with_testing-Known t k (with_masked masked t o)
                            (with_masked-Known masked t o h)))
                  ])

  note_keys-Known :
      (keys : List String) (o : Objects)
      → Known o
      → Ensures Known (note_keys c reference testing keys o)
  unfolding note_keys
  note_keys-Known [] o h = h
  note_keys-Known (k ∷ keys) o h = Ensures-bind Known (note_key c reference testing k o) _ (λ o' e.
      note_keys-Known keys o'
        (Ensures-ok Known (note_key c reference testing k o) (note_key-Known k o h) e))

-- A key that only the first of two objects has is one that the loops go through.
only-Among :
    (k : String) (d e : Fields)
    → has k d ≡ true
    → has k e ≡ false
    → Among k (keys_of (without_keys d e))
unfolding has without_keys
only-Among k end e h n = cc
only-Among k (field j v d) e h n = elim (eq_cases j k) [
  | inl (same, _) ↦
      let n' : has j e ≡ false = subst (λ x. has x e ≡ false) (sym same) n in rw n' (inl (sym same))
  | inr (_, q) ↦
      let later = only-Among k d e (rw q at h) n in
      elim (Bool-cases (has j e)) [ inl b ↦ rw b later | inr b ↦ rw b (inr later) ]
]

-- What a key is: its type, and that it is neither native nor masked.
abbrev pub IsCompared : (String → String → Bool) → StateContext → String → String → Type 0
IsCompared path_match c resource_key resource_type =
    (kind_native_objects resource_key ≡ ok false)
    × (resource_key_should_be_masked path_match c resource_key ≡ ok false)
    × ((namespace : String) × (name : String) × (parse_key resource_key
          ≡ ok (resource_type, namespace, name)))

-- The tests of a key, and the message if it passes them all, leave no message.
quiet_step :
    (random : List String) (alarm : String × String × String → String) (rest : List String)
    (native masked : Result Bool) (parsed : Result (String × String × String))
    → (do
      b ← native
      if b then ok rest else (do
        m ← masked
        if m
            then ok rest
            else (do x ← parsed; ok (if contains x.0 random then rest else alarm x ∷ rest))))
      ≡ ok []
    → (rest ≡ [])
      × ((x : String × String × String)
          → native ≡ ok false
          → masked ≡ ok false
          → parsed ≡ ok x
          → contains x.0 random ≡ true)
quiet_step random alarm rest (err y) masked parsed e = cc
quiet_step random alarm rest (ok true) masked parsed e = (ok_inj e, λ x n m p. cc)
quiet_step random alarm rest (ok false) (err y) parsed e = cc
quiet_step random alarm rest (ok false) (ok true) parsed e = (ok_inj e, λ x n m p. cc)
quiet_step random alarm rest (ok false) (ok false) (err y) e = cc
quiet_step random alarm rest (ok false) (ok false) (ok z) e =
    elim (Bool-cases (contains z.0 random)) [
      | inl b ↦
          let f : ok rest ≡ ok [] = rw b at e in
          (ok_inj f, λ x n m p. subst (λ y. contains y.0 random ≡ true) (ok_inj p) b)
      | inr b ↦ let f : ok (alarm z ∷ rest) ≡ ok [] = rw b at e in let g = ok_inj f in cc
    ]

module _ (path_match : String → String → Bool) (c : StateContext) where
  existence_messages-contains :
      (random : List String) (alarm seen : String) (keys : List String) (k t : String)
      → existence_messages path_match c random alarm seen keys ≡ ok []
      → Among k keys
      → IsCompared path_match c k t
      → contains t random ≡ true
  unfolding existence_messages
  existence_messages-contains random alarm seen [] k t e p h = elim p [ ]
  existence_messages-contains random alarm seen (j ∷ keys) k t e p h =
      let (rest, r, e') = >>=-eq-ok (existence_messages path_match c random alarm seen keys) _ e in
      let (none_left, found) =
        quiet_step random _ rest (kind_native_objects j)
          (resource_key_should_be_masked path_match c j) (parse_key j) e' in
      elim p [
        | inr later ↦
            existence_messages-contains random alarm seen keys k t (r ∙ ap ok none_left) later h
        | inl same ↦
            let (native, masked, (ns, n, parsed)) =
              subst (λ x. IsCompared path_match c x t) same h in
            found (t, ns, n) native masked parsed
      ]

either-IsRandom :
    (path_match : String → String → Bool) (c : StateContext) (reference testing : Fields)
    (random : List String) (k t : String)
    → All (IsRandom reference) random
    → (Among k (only_in_testing reference testing)
        → IsCompared path_match c k t
        → contains t random ≡ true)
    → (Among k (only_in_reference reference testing)
        → IsCompared path_match c k t
        → contains t random ≡ true)
    → IsCompared path_match c k t
    → (has k testing ≡ has k reference) ⊎ IsRandom reference t
either-IsRandom path_match c reference testing random k t known more fewer h =
    elim (Bool-cases (has k testing)) [
      | inl b ↦ elim (Bool-cases (has k reference)) [
        | inl b' ↦ inl (b ∙ sym b')
        | inr b' ↦ inr (
            All-contains (IsRandom reference) t random
              (more (only-Among k testing reference b b') h) known)
      ]
      | inr b ↦ elim (Bool-cases (has k reference)) [
        | inr b' ↦ inl (b ∙ sym b')
        | inl b' ↦ inr (
            All-contains (IsRandom reference) t random
              (fewer (only-Among k reference testing b' b) h) known)
      ]
    ]

-- If `compare_states` returns no message, then an object that is neither native nor masked is in both
-- states or in neither, or its type is one of an object that the reference state masks.
pub compare_states-IsRandom :
    (path_match : String → String → Bool) (show : Option Value → String)
    (show_names : List String → String) (show_index : ℕ → String) (c : StateContext)
    (deep_diff : Fields → Fields → List Delta) (reference testing : Fields)
    → compare_states path_match show show_names show_index c deep_diff reference testing ≡ ok []
    → (resource_key resource_type : String) → IsCompared path_match c resource_key resource_type
    → (has resource_key testing ≡ has resource_key reference) ⊎ IsRandom reference resource_type
unfolding compare_states
compare_states-IsRandom path_match show show_names show_index c deep_diff reference testing e k t
      h =
    let start = note_keys c reference testing (all_keys reference testing) no_objects in
    let (o, p₁, e₁) = >>=-eq-ok start _ e in
    let random = o.resource_type_with_random_names in
    let testing_only = only_in_testing reference testing in
    let reference_only = only_in_reference reference testing in
    let (more, p₂, e₂) =
      >>=-eq-ok (existence_messages path_match c random more_objects not_in_reference testing_only)
        _ e₁ in
    let (fewer, p₃, e₃) =
      >>=-eq-ok (existence_messages path_match c random fewer_objects not_in_testing reference_only)
        _ e₂ in
    let (messages, _, e₄) =
      >>=-eq-ok (judge_deltas path_match show show_names show_index c (deep_diff reference testing))
        _ e₃ in
    let numbers = number_messages show show_names o random in
    let found = more ++ fewer ++ numbers in
    let (quiet, _) = append_empty (sort found ++ sort messages.0) (sort messages.1) (ok_inj e₄) in
    let (objects_quiet, _) = append_empty (sort found) (sort messages.0) quiet in
    let (both, _) = append_empty (more ++ fewer) numbers (sort_empty found objects_quiet) in
    let (more_empty, fewer_empty) = append_empty more fewer both in
    let known =
      Ensures-ok (Known c reference testing) start
        (note_keys-Known c reference testing (all_keys reference testing) no_objects tt) p₁ in
    either-IsRandom path_match c reference testing random k t known
      (existence_messages-contains path_match c random more_objects not_in_reference testing_only k
        t (p₂ ∙ ap ok more_empty))
      (existence_messages-contains path_match c random fewer_objects not_in_testing reference_only k
        t (p₃ ∙ ap ok fewer_empty))
      h
