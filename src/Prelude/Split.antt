-- ===== src/Prelude/Split.antt =====
-- `split` and `join` are inverse to one another.
use mathlib.Core.List.{List, [], ◌∷◌}
use text.Mathlib.TextLemmas.{nil-append, cons-append}
use text.Mathlib.TextEquality.{Char-path}
use sieve.Prelude.{
  ℕ, String, Char, code, ◌<>◌, ◌≡◌, refl, sym, ap, ◌∙◌, inl, inr, Bool, false, ◌||◌, Bool-cases,
  nat_eq, nat_eq_iff, arith, join, split, onto_first,
}

-- Whether a character with this code stands in the text.
unfoldable pub has_code : ℕ → String → Bool
has_code n String.[] = false
has_code n (String.◌∷◌ c s) = nat_eq (code c) n || has_code n s

split-cons : (n : ℕ) (s : String) → (p : String) × (ps : List String) × (split n s ≡ p ∷ ps)
unfolding split onto_first
split-cons n String.[] = ("", [], refl)
split-cons n (String.◌∷◌ c s) = elim (Bool-cases (nat_eq (code c) n)) [
  | inl e ↦ ("", split n s, rw e refl)
  | inr e ↦ let (p, ps, q) = split-cons n s in (String.◌∷◌ c p, ps, rw (e, q) refl)
]

join-onto_first :
    (sep : String) (c : Char) (p : String) (ps : List String)
    → join sep (onto_first c (p ∷ ps)) ≡ String.◌∷◌ c (join sep (p ∷ ps))
unfolding join onto_first
join-onto_first sep c p [] = refl
join-onto_first sep c p (q ∷ ps) = cons-append c p (sep <> join sep (q ∷ ps))

join-empty_first :
    (c d : Char) (s : String)
    → d ≡ c
    → join (String.◌∷◌ c "") (split (code c) s) ≡ s
    → join (String.◌∷◌ c "") ("" ∷ split (code c) s) ≡ String.◌∷◌ d s
unfolding join
join-empty_first c d s e h =
    let (p, ps, q) = split-cons (code c) s in
    rw q (
      nil-append _
      ∙ cons-append c "" (join (String.◌∷◌ c "") (p ∷ ps))
      ∙ ap (String.◌∷◌ c) (nil-append _ ∙ (rw q at h))
      ∙ ap (λ x. String.◌∷◌ x s) (sym e))

-- A text is its parts, joined again.
pub join-split : (c : Char) (s : String) → join (String.◌∷◌ c "") (split (code c) s) ≡ s
unfolding split
join-split c String.[] = unfold join in refl
join-split c (String.◌∷◌ d s) = elim (Bool-cases (nat_eq (code d) (code c))) [
  | inl e ↦ rw e (join-empty_first c d s (Char-path d c ((nat_eq_iff _ _).0 e)) (join-split c s))
  | inr e ↦
      let (p, ps, q) = split-cons (code c) s in
      rw (e, q) (join-onto_first _ d p ps ∙ ap (String.◌∷◌ d) (rw q at (join-split c s)))
]

-- A part without the separator comes first.
pub split-append :
    (n : ℕ) (c : Char) (p s : String)
    → code c ≡ n
    → has_code n p ≡ false
    → split n (p <> (String.◌∷◌ c s)) ≡ p ∷ split n s
unfolding has_code split onto_first
split-append n c String.[] s e h =
    rw (nil-append (String.◌∷◌ c s), (nat_eq_iff (code c) n).1 e) refl
split-append n c (String.◌∷◌ d p) s e h =
    let differs : nat_eq (code d) n ≡ false = ground arith in
    let lacks : has_code n p ≡ false = ground arith in
    rw (cons-append d p (String.◌∷◌ c s), differs, split-append n c p s e lacks) refl

pub split-lacking : (n : ℕ) (p : String) → has_code n p ≡ false → split n p ≡ p ∷ []
unfolding has_code split onto_first
split-lacking n String.[] h = refl
split-lacking n (String.◌∷◌ d p) h =
    let differs : nat_eq (code d) n ≡ false = ground arith in
    let lacks : has_code n p ≡ false = ground arith in rw (differs, split-lacking n p lacks) refl
