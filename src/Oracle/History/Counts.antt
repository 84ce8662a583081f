-- ===== src/Oracle/History/Counts.antt =====
-- The counts of `generate_history_digest` are the numbers of events.
use sieve.Prelude.{
  ℕ, ◌+◌, String, ◌==◌, ◌≡◌, refl, sym, ap, ◌∙◌, subst, Bool, true, false, Bool-cases, ◌&&◌, List,
  [], ◌∷◌, Option, none, some, Result, ok, err, key_error, from_option, from_option-ok, contains,
  arith, eq_cases, inl, inr, >>=-eq-ok, ok_inj,
}
use sieve.Prelude.Dict.{Dict, lookup, insert, lookup-insert}
use sieve.Json.{Value}
use sieve.Event.Records.{ApiEvent}
use sieve.Oracle.Log.{api_events}
use sieve.Oracle.History.{
  Digest, entry_or_empty, digest_key, count_key, count_event, count_events, generate_history_digest,
}

-- A count in an entry and in a digest, 0 where there is none.
abbrev or_zero : Option ℕ → ℕ
or_zero none = 0
or_zero (some n) = n

abbrev pub count_in : String → Dict ℕ → ℕ
count_in etype entry = or_zero (lookup etype entry)

abbrev pub count_of : String → String → Digest → ℕ
count_of key etype d = count_in etype (entry_or_empty (lookup key d))

abbrev one_if : Bool → ℕ
one_if true = 1
one_if false = 0

-- Whether an event is one of those that are counted for a key and a type.
unfoldable pub is_counted : List String → String → String → ApiEvent → Bool
unfolding contains digest_key
is_counted checked key etype e =
    contains e.etype checked
    && e.etype == etype
    && elim (digest_key e) [ ok k ↦ k == key | err x ↦ false ]

unfoldable pub occurrences : List String → String → String → List ApiEvent → ℕ
unfolding is_counted
occurrences checked key etype [] = 0
occurrences checked key etype (e ∷ es) =
    one_if (is_counted checked key etype e) + occurrences checked key etype es

count_in-insert :
    (t etype : String) (n : ℕ) (entry : Dict ℕ)
    → lookup t entry ≡ some n
    → count_in etype (insert t (n + 1) entry) ≡ one_if (t == etype) + count_in etype entry
count_in-insert t etype n entry found = elim (eq_cases t etype) [
  | inl (same, q) ↦
      let found' : lookup etype entry ≡ some n = subst (λ x. lookup x entry ≡ some n) same found in
      let old : count_in etype entry ≡ n = ap or_zero found' in
      let new : count_in etype (insert t (n + 1) entry) ≡ n + 1 =
        ap or_zero {y = some (n + 1)} (lookup-insert t etype (n + 1) entry ∙ rw q refl) in
      rw q (omega arith)
  | inr (_, q) ↦
      let new : count_in etype (insert t (n + 1) entry) ≡ count_in etype entry =
        ap or_zero {y = lookup etype entry} (lookup-insert t etype (n + 1) entry ∙ rw q refl) in
      rw q (omega arith)
]

count_of-count_key :
    (k t key etype : String) (d d' : Digest)
    → count_key k t d ≡ ok d'
    → count_of key etype d' ≡ one_if ((k == key) && (t == etype)) + count_of key etype d
unfolding count_key
count_of-count_key k t key etype d d' e =
    let entry = entry_or_empty (lookup k d) in
    let (n, f, q) = >>=-eq-ok (from_option key_error (lookup t entry)) _ e in
    let found = from_option-ok key_error (lookup t entry) f in
    let entry' = insert t (n + 1) entry in
    let look = lookup-insert k key entry' d in
    subst (λ x. count_of key etype x ≡ one_if ((k == key) && (t == etype)) + count_of key etype d)
      (ok_inj q)
      (elim (eq_cases k key) [
        | inr (_, differ) ↦
            let same_entry : count_of key etype (insert k entry' d) ≡ count_of key etype d =
              ap (λ o. count_in etype (entry_or_empty o)) {y = lookup key d}
                (look ∙ rw differ refl) in
            rw differ (omega arith)
        | inl (same, p) ↦
            let new : count_of key etype (insert k entry' d) ≡ count_in etype entry' =
              ap (λ o. count_in etype (entry_or_empty o)) {y = some entry'} (look ∙ rw p refl) in
            let old : count_in etype entry ≡ count_of key etype d =
              ap (λ x. count_of x etype d) same in
            let one = count_in-insert t etype n entry found in rw p (omega arith)
      ])

and_swap : (a b : Bool) → (a && b) ≡ (b && a)
and_swap a b = ground arith

module _ (checked : List String) where
  count_of-count_event :
      (e : ApiEvent) (key etype : String) (d d' : Digest)
      → count_event checked e d ≡ ok d'
      → count_of key etype d' ≡ one_if (is_counted checked key etype e) + count_of key etype d
  unfolding count_event is_counted
  count_of-count_event e key etype d d' f = elim (Bool-cases (contains e.etype checked)) [
    | inr b ↦
        let same : d ≡ d' = ok_inj (rw b at f) in
        let kept : count_of key etype d' ≡ count_of key etype d =
          ap (count_of key etype) (sym same) in
        rw b (omega arith)
    | inl b ↦
        let (k, p, q) = >>=-eq-ok (digest_key e) _ (rw b at f) in
        let counted : is_counted checked key etype e ≡ ((k == key) && (e.etype == etype)) =
          rw (b, p, is_counted) (and_swap (e.etype == etype) (k == key)) in
        count_of-count_key k e.etype key etype d d' q
        ∙ ap (λ x. one_if x + count_of key etype d) (sym counted)
  ]

  count_of-count_events :
      (es : List ApiEvent) (key etype : String) (d d' : Digest)
      → count_events checked es d ≡ ok d'
      → count_of key etype d' ≡ occurrences checked key etype es + count_of key etype d
  unfolding count_events occurrences
  count_of-count_events [] key etype d d' f =
      subst (λ x. count_of key etype x ≡ 0 + count_of key etype d) (ok_inj f) (omega arith)
  count_of-count_events (e ∷ es) key etype d d' f =
      let (d₁, p, q) = >>=-eq-ok (count_event checked e d) _ f in
      let now = count_of-count_event e key etype d d₁ p in
      let later = count_of-count_events es key etype d₁ d' q in omega arith

  -- If the API events of a log are read as `es` and `generate_history_digest` returns a digest, then
  -- its count for a key and a type is the number of events of that type, among the checked types,
  -- that count under the key: their own key, or its pattern where the name is generated.
  pub generate_history_digest-occurrences :
      (loads : String → Result Value) (lines : List String) (es : List ApiEvent) (d : Digest)
      → api_events loads lines ≡ ok es
      → generate_history_digest checked loads lines ≡ ok d
      → (key etype : String) → count_of key etype d ≡ occurrences checked key etype es
  unfolding generate_history_digest lookup
  generate_history_digest-occurrences loads lines es d e f key etype =
      let g : count_events checked es [] ≡ ok d = rw e at f in
      let h = count_of-count_events es key etype [] d g in
      let z : count_of key etype [] ≡ 0 = ground arith in omega arith
