-- ===== src/Analyzer/Receive/Timed.antt =====
-- What `parse_receiver_events` returns: every hear of the log, with the lines where it starts and ends.
use sieve.Prelude.{
  ℕ, suc, ◌+◌, ◌<◌, ◌≤◌, String, ◌≡◌, refl, sym, ◌∙◌, subst, Bool, true, false, Bool-cases, inl,
  inr, int_eq, List, [], ◌∷◌, some, Result, ok, ℤ, pos, All, length, arith, if◌then◌else◌,
  from_option, from_option-ok, key_error, >>=-eq-ok, ok_inj,
}
use sieve.Prelude.IntDict.{lookup_int, insert_int, lookup-insert_int, int_eq_iff}
use sieve.Json.{Value}
use sieve.Event.Records.{ControllerHear}
use sieve.Event.Parse.{
  in_line, sieve_before_hear_mark, sieve_after_hear_mark, parse_controller_hear,
  parse_controller_hear_id_only,
}
use sieve.Analyzer.Receive.{
  HearMap, before_hear, after_hear, receive_line, receive_lines, collect_hears,
  parse_receiver_events, parsed_hears,
}

-- A hear that ends after it starts, and at the last line at the latest.
abbrev pub IsTimed : ℕ → ℕ → ControllerHear → Type 0
IsTimed largest i h =
    (a : ℕ) × (b : ℕ) × (h.start_timestamp ≡ pos a)
    × (h.end_timestamp ≡ pos b)
    × (a < i)
    × (a < b)
    × (b ≤ largest)

abbrev IsTimedMap : ℕ → ℕ → HearMap → Type 0
IsTimedMap largest i m =
    (k : ℤ) (h : ControllerHear) → lookup_int k m ≡ some h → (h.id ≡ k) × IsTimed largest i h

abbrev HasId : HearMap → ℤ → Type 0
HasId m k = (h : ControllerHear) × (lookup_int k m ≡ some h)

lookup-insert_int-same :
    (k : ℤ) (h : ControllerHear) (m : HearMap) → lookup_int k (insert_int k h m) ≡ some h
lookup-insert_int-same k h m = lookup-insert_int k k h m ∙ rw ((int_eq_iff k k).1 refl) refl

insert_int-HasId :
    (k j : ℤ) (h : ControllerHear) (m : HearMap) → HasId m j → HasId (insert_int k h m) j
insert_int-HasId k j h m (g, e) = elim (Bool-cases (int_eq k j)) [
  | inl q ↦ (h, lookup-insert_int k j h m ∙ rw q refl)
  | inr q ↦ (g, lookup-insert_int k j h m ∙ rw q e)
]

insert_int-IsTimedMap :
    (largest i : ℕ) (k : ℤ) (h : ControllerHear) (m : HearMap)
    → h.id ≡ k
    → IsTimed largest i h
    → IsTimedMap largest i m
    → IsTimedMap largest i (insert_int k h m)
insert_int-IsTimedMap largest i k h m q t all j g e = elim (Bool-cases (int_eq k j)) [
  | inl same ↦
      let found : h ≡ g =
        (let p : some h ≡ some g = sym (lookup-insert_int k j h m ∙ rw same refl) ∙ e in cc) in
      subst (λ x. (x.id ≡ j) × IsTimed largest i x) found (q ∙ (int_eq_iff k j).0 same, t)
  | inr differ ↦ all j g (sym (lookup-insert_int k j h m ∙ rw differ refl) ∙ e)
]

IsTimedMap-suc :
    (largest i : ℕ) (m : HearMap) → IsTimedMap largest i m → IsTimedMap largest (suc i) m
IsTimedMap-suc largest i m all k h e =
    let (q, (a, b, s, t, l, l', l'')) = all k h e in (q, (a, b, s, t, omega arith, l', l''))

-- A step keeps the times of the map right, and loses no id.
abbrev IsStep : ℕ → ℕ → HearMap → HearMap → Type 0
IsStep largest i m m' = IsTimedMap largest (suc i) m' × ((k : ℤ) → HasId m k → HasId m' k)

module _ (loads : String → Result Value) where
  parsed_hears-before :
      (line : String) (lines : List String) (h : ControllerHear) (hs : List ControllerHear)
      → in_line sieve_before_hear_mark line ≡ true
      → parse_controller_hear loads line ≡ ok h
      → parsed_hears loads lines ≡ ok hs
      → parsed_hears loads (line ∷ lines) ≡ ok (h ∷ hs)
  unfolding parsed_hears
  parsed_hears-before line lines h hs b p q = rw (b, p, q) refl

  parsed_hears-skip :
      (line : String) (lines : List String)
      → in_line sieve_before_hear_mark line ≡ false
      → parsed_hears loads (line ∷ lines) ≡ parsed_hears loads lines
  unfolding parsed_hears
  parsed_hears-skip line lines b = rw b refl

module _ (loads : String → Result Value) (largest : ℕ) where
  before_hear-IsStep :
      (i : ℕ) (line : String) (m m' : HearMap)
      → i < largest
      → IsTimedMap largest i m
      → before_hear loads largest i line m ≡ ok m'
      → IsStep largest i m m'
        × ((h : ControllerHear) × (parse_controller_hear loads line ≡ ok h) × HasId m' h.id)
  unfolding before_hear
  before_hear-IsStep i line m m' l all e =
      let (h, p, q) = >>=-eq-ok (parse_controller_hear loads line) _ e in
      let timed = record h { start_timestamp = pos i; end_timestamp = pos largest } in
      let all' =
        insert_int-IsTimedMap largest (suc i) h.id timed m refl
          (i, largest, refl, refl, omega arith, l, omega arith) (IsTimedMap-suc largest i m all) in
      subst
        (λ x.
          IsStep largest i m x
          × ((h : ControllerHear) × (parse_controller_hear loads line ≡ ok h) × HasId x h.id))
        (ok_inj q)
        (
          (all', λ k. insert_int-HasId h.id k timed m),
          (h, p, (timed, lookup-insert_int-same h.id timed m)),
        )

  after_hear-IsStep :
      (i : ℕ) (line : String) (m m' : HearMap)
      → i < largest
      → IsTimedMap largest i m
      → after_hear loads i line m ≡ ok m'
      → IsStep largest i m m'
  unfolding after_hear
  after_hear-IsStep i line m m' l all e =
      let (id, _, e') = >>=-eq-ok (parse_controller_hear_id_only line) _ e in
      let (h, f, q) = >>=-eq-ok (from_option key_error (lookup_int id m)) _ e' in
      let (same, (a, b, s, _, before, _, _)) =
        all id h (from_option-ok key_error (lookup_int id m) f) in
      let timed = record h { end_timestamp = pos i } in
      let all' =
        insert_int-IsTimedMap largest (suc i) id timed m same
          (a, i, s, refl, omega arith, before, omega arith) (IsTimedMap-suc largest i m all) in
      subst (IsStep largest i m) (ok_inj q) (all', λ k. insert_int-HasId id k timed m)

  receive_line-before :
      (i : ℕ) (line : String) (m : HearMap)
      → in_line sieve_before_hear_mark line ≡ true
      → receive_line loads largest i line m ≡ before_hear loads largest i line m
  unfolding receive_line
  receive_line-before i line m e = rw (e, receive_line) refl

  receive_line-after :
      (i : ℕ) (line : String) (m : HearMap)
      → in_line sieve_before_hear_mark line ≡ false
      → receive_line loads largest i line m
        ≡ (if in_line sieve_after_hear_mark line then after_hear loads i line m else ok m)
  unfolding receive_line
  receive_line-after i line m e = rw (e, receive_line) refl

  after_hear-IsStep-if :
      (b : Bool) (i : ℕ) (line : String) (m m' : HearMap)
      → i < largest
      → IsTimedMap largest i m
      → (if b then after_hear loads i line m else ok m) ≡ ok m'
      → IsStep largest i m m'
  after_hear-IsStep-if true i line m m' l all e = after_hear-IsStep i line m m' l all e
  after_hear-IsStep-if false i line m m' l all e =
      subst (IsStep largest i m) (ok_inj e) (IsTimedMap-suc largest i m all, λ k x. x)

  -- What the first loop leaves for the second.
  abbrev IsReceived : List String → HearMap → HearMap → Type 0
  IsReceived lines m m' =
      ((i : ℕ) × IsTimedMap largest i m')
      × ((k : ℤ) → HasId m k → HasId m' k)
      × ((ps : List ControllerHear) × (parsed_hears loads lines ≡ ok ps)
          × All (λ p. HasId m' p.id) ps)

  receive_lines-IsReceived :
      (i : ℕ) (lines : List String) (m m' : HearMap)
      → i + length lines ≤ largest
      → IsTimedMap largest i m
      → receive_lines loads largest i lines m ≡ ok m'
      → IsReceived lines m m'
  unfolding receive_lines parsed_hears
  receive_lines-IsReceived i [] m m' l all e = (
    (i, subst (IsTimedMap largest i) (ok_inj e) all),
    subst (λ x. (k : ℤ) → HasId m k → HasId x k) (ok_inj e) (λ k h. h),
    ([], refl, tt),
  )
  receive_lines-IsReceived i (line ∷ lines) m m' l all e =
      let (m₁, f, e') = >>=-eq-ok (receive_line loads largest i line m) _ e in
      elim (Bool-cases (in_line sieve_before_hear_mark line)) [
        | inl b ↦
            let ((all₁, keep₁), (h, p, has)) =
              before_hear-IsStep i line m m₁ (omega arith) all
                (sym (receive_line-before i line m b) ∙ f) in
            let (timed, keep, (ps, q, found)) =
              receive_lines-IsReceived (suc i) lines m₁ m' (omega arith) all₁ e' in
            (
              timed,
              (λ k x. keep k (keep₁ k x)),
              (h ∷ ps, parsed_hears-before loads line lines h ps b p q, (keep h.id has, found)),
            )
        | inr b ↦
            let (all₁, keep₁) =
              after_hear-IsStep-if (in_line sieve_after_hear_mark line) i line m m₁ (omega arith)
                all (sym (receive_line-after i line m b) ∙ f) in
            let (timed, keep, (ps, q, found)) =
              receive_lines-IsReceived (suc i) lines m₁ m' (omega arith) all₁ e' in
            (
              timed,
              (λ k x. keep k (keep₁ k x)),
              (ps, parsed_hears-skip loads line lines b ∙ q, found),
            )
      ]

-- A hear that starts and ends at lines of the log, in this order; a hear without an end ends after
-- the last line.
abbrev pub HasSpan : List String → ControllerHear → Type 0
HasSpan lines h =
    (a : ℕ) × (b : ℕ) × (h.start_timestamp ≡ pos a)
    × (h.end_timestamp ≡ pos b)
    × (a < b)
    × (b ≤ length lines)

-- The hears that are returned, next to those that are parsed.
abbrev pub Matches : List String → List ControllerHear → List ControllerHear → Type 0
Matches lines [] [] = Unit
Matches lines (p ∷ ps) (h ∷ hs) = (h.id ≡ p.id) × HasSpan lines h × Matches lines ps hs
Matches lines _ _ = ⊥

module _ (loads : String → Result Value) (all : List String) (i : ℕ) (m : HearMap) where
  abbrev Collects : List String → List ControllerHear → Type 0
  Collects lines ps =
      (hs : List ControllerHear) × (collect_hears loads lines m ≡ ok hs) × Matches all ps hs

  collect_hears-before :
      (line : String) (lines : List String) (p : ControllerHear) (ps : List ControllerHear)
      → in_line sieve_before_hear_mark line ≡ true
      → parse_controller_hear loads line ≡ ok p
      → IsTimedMap (length all) i m
      → HasId m p.id
      → Collects lines ps
      → Collects (line ∷ lines) (p ∷ ps)
  unfolding collect_hears
  collect_hears-before line lines p ps b q timed (h, found) (hs, f, match) =
      let (same, (a, c, s, t, _, l, l')) = timed p.id h found in
      (h ∷ hs, rw (b, q, found, f) refl, (same, (a, c, s, t, l, l'), match))

  collect_hears-skip :
      (line : String) (lines : List String)
      → in_line sieve_before_hear_mark line ≡ false
      → collect_hears loads (line ∷ lines) m ≡ collect_hears loads lines m
  unfolding collect_hears
  collect_hears-skip line lines b = rw b refl

  collect_hears-Matches :
      (lines : List String) (ps : List ControllerHear)
      → IsTimedMap (length all) i m
      → parsed_hears loads lines ≡ ok ps
      → All (λ p. HasId m p.id) ps
      → Collects lines ps
  unfolding collect_hears parsed_hears
  collect_hears-Matches [] [] timed e found = ([], refl, tt)
  collect_hears-Matches [] (p ∷ ps) timed e found = cc
  collect_hears-Matches (line ∷ lines) ps timed e found =
      elim (Bool-cases (in_line sieve_before_hear_mark line)) [
        | inr b ↦
            let (hs, f, match) =
              collect_hears-Matches lines ps timed (sym (parsed_hears-skip loads line lines b) ∙ e)
                found in
            (hs, collect_hears-skip line lines b ∙ f, match)
        | inl b ↦
            let (p, q, e₁) = >>=-eq-ok (parse_controller_hear loads line) _ (rw b at e) in
            let (ps', q', e₂) = >>=-eq-ok (parsed_hears loads lines) _ e₁ in
            let found' : All (λ x. HasId m x.id) (p ∷ ps') =
              subst (All (λ x. HasId m x.id)) (sym (ok_inj e₂)) found in
            subst (Collects (line ∷ lines)) (ok_inj e₂) (
              collect_hears-before line lines p ps' b q timed found'.0
                (collect_hears-Matches lines ps' timed q' found'.1))
      ]

-- If the first loop of `parse_receiver_events` returns for a log, then the second one returns as
-- well, and the hears it returns are the hears of the log in the order of their lines: each has the
-- id of the parsed hear, starts at a line, and ends at a later one or after the last.
pub parse_receiver_events-Matches :
    (loads : String → Result Value) (lines : List String) (m : HearMap)
    → receive_lines loads (length lines) 0 lines [] ≡ ok m
    → (ps : List ControllerHear) × (hs : List ControllerHear) × (parsed_hears loads lines ≡ ok ps)
      × (parse_receiver_events loads lines ≡ ok hs)
      × Matches lines ps hs
unfolding parse_receiver_events lookup_int
parse_receiver_events-Matches loads lines m e =
    let ((i, timed), _, (ps, q, found)) =
      receive_lines-IsReceived loads (length lines) 0 lines [] m (omega arith) (λ k h f. cc) e in
    let (hs, f, match) = collect_hears-Matches loads lines i m lines ps timed q found in
    (ps, hs, q, rw e f, match)
