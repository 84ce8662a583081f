-- ===== src/Oracle/Masks/Paths.antt =====
-- What `equal_path` says of the parts of two paths.
use sieve.Prelude.{
  ℕ, zero, suc, String, ◌==◌, ◌≡◌, refl, ◌↔◌, ◌⊎◌, inl, inr, true, Bool-cases, List, [], ◌∷◌, some,
  get_elem?, split, arith, eq_iff,
}
use sieve.Oracle.Masks.{equal_parts, equal_path}

-- Every part of the template is `*`, or the part of the value at its place.
abbrev pub IsPrefix : List String → List String → Type 0
IsPrefix template value =
    (i : ℕ) (t : String)
    → get_elem? template i ≡ some t
    → (v : String) × (get_elem? value i ≡ some v) × ((t ≡ "*") ⊎ (t ≡ v))

equal_parts-IsPrefix :
    (template value : List String) → equal_parts template value ≡ true → IsPrefix template value
unfolding equal_parts
equal_parts-IsPrefix [] value e i t f = cc
equal_parts-IsPrefix (t ∷ template) [] e i t' f = cc
equal_parts-IsPrefix (t ∷ template) (v ∷ value) e zero t' f = elim (Bool-cases (t == "*")) [
  | inl q ↦ (v, refl, inl (let w = (eq_iff t "*").0 q in let g : t ≡ t' = cc in cc))
  | inr q ↦ (v, refl, inr (let w = (eq_iff t v).0 (ground arith) in let g : t ≡ t' = cc in cc))
]
equal_parts-IsPrefix (t ∷ template) (v ∷ value) e (suc i) t' f =
    equal_parts-IsPrefix template value (ground arith) i t' f

IsPrefix-equal_parts :
    (template value : List String) → IsPrefix template value → equal_parts template value ≡ true
unfolding equal_parts
IsPrefix-equal_parts [] value h = refl
IsPrefix-equal_parts (t ∷ template) [] h = let (v, e, _) = h 0 t refl in cc
IsPrefix-equal_parts (t ∷ template) (v ∷ value) h =
    let later = IsPrefix-equal_parts template value (λ i t' f. h (suc i) t' f) in
    let (v', e, same) = h 0 t refl in
    let g : v ≡ v' = cc in
    elim same [
      | inl star ↦ let q = (eq_iff t "*").1 star in ground arith
      | inr q ↦ let w : t ≡ v = cc in let q' = (eq_iff t v).1 w in ground arith
    ]

-- `equal_path` is true exactly if the value has at least as many parts as the template, and every
-- part of the template is `*` or the value's part at the same place.
pub equal_path_iff :
    (template value : String)
    → (equal_path template value ≡ true) ↔ IsPrefix (split b'/' template) (split b'/' value)
unfolding equal_path
equal_path_iff template value = (
  equal_parts-IsPrefix (split b'/' template) (split b'/' value),
  IsPrefix-equal_parts (split b'/' template) (split b'/' value),
)
