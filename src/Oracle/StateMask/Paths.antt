-- ===== src/Oracle/StateMask/Paths.antt =====
-- The paths that `generate_state_mask_helper` collects lead to the masked values, and all do.
use sieve.Prelude.{
  String, ◌==◌, ◌≡◌, refl, sym, ap, ◌∙◌, subst, ◌↔◌, ◌⊎◌, inl, inr, true, Bool-cases, List, [], ◌∷◌,
  ◌++◌, Among, eq_cases,
}
use sieve.Json.{Value, null, bool, num, str, list, dict, Items, nil, cons, Fields, end, field}
use sieve.Common.{sieve_learn_value_mask}
use sieve.Oracle.StateMask.{
  path_eq, already_in, add_path, generate_state_mask_helper, mask_items, mask_fields,
}

path_eq_lem : (p q : List String) → path_eq p q ≡ true → p ≡ q
unfolding path_eq
path_eq_lem [] [] e = refl
path_eq_lem [] (k ∷ q) e = cc
path_eq_lem (j ∷ p) [] e = cc
path_eq_lem (j ∷ p) (k ∷ q) e = elim (eq_cases j k) [
  | inl (same, r) ↦ let tail = path_eq_lem p q (rw r at e) in cc
  | inr (_, r) ↦ let f = rw r at e in cc
]

already_in-Among :
    (path : List String) (ml : List (List String)) → already_in path ml ≡ true → Among path ml
unfolding already_in
already_in-Among path [] e = cc
already_in-Among path (mask ∷ ml) e = elim (Bool-cases (path_eq mask path)) [
  | inl b ↦ inl (sym (path_eq_lem mask path b))
  | inr b ↦ inr (already_in-Among path ml (rw b at e))
]

Among-snoc :
    (p path : List String) (ml : List (List String))
    → Among p (ml ++ (path ∷ []))
    → Among p ml ⊎ (p ≡ path)
Among-snoc p path [] h = elim h [ inl e ↦ inr e | inr f ↦ elim f [ ] ]
Among-snoc p path (m ∷ ml) h = elim h [
  | inl e ↦ inl (inl e)
  | inr m' ↦ elim (Among-snoc p path ml m') [ inl a ↦ inl (inr a) | inr e ↦ inr e ]
]

snoc-Among :
    (p path : List String) (ml : List (List String))
    → Among p ml ⊎ (p ≡ path)
    → Among p (ml ++ (path ∷ []))
snoc-Among p path [] (inl h) = elim h [ ]
snoc-Among p path [] (inr e) = inl e
snoc-Among p path (m ∷ ml) (inr e) = inr (snoc-Among p path ml (inr e))
snoc-Among p path (m ∷ ml) (inl h) = elim h [
  | inl e ↦ inl e
  | inr a ↦ inr (snoc-Among p path ml (inl a))
]

Among-add_path :
    (p path : List String) (ml : List (List String))
    → Among p (add_path path ml)
    → Among p ml ⊎ (p ≡ path)
unfolding add_path
Among-add_path p path ml h = elim (Bool-cases (already_in path ml)) [
  | inl b ↦ inl (rw b at h)
  | inr b ↦ Among-snoc p path ml (rw b at h)
]

add_path-Among :
    (p path : List String) (ml : List (List String))
    → Among p ml ⊎ (p ≡ path)
    → Among p (add_path path ml)
unfolding add_path
add_path-Among p path ml h = elim (Bool-cases (already_in path ml)) [
  | inl b ↦
      rw b (elim h [
        | inl a ↦ a
        | inr e ↦ subst (λ x. Among x ml) (sym e) (already_in-Among path ml b)
      ])
  | inr b ↦ rw b (snoc-Among p path ml h)
]

snoc_append : (path q : List String) (k : String) → (path ++ (k ∷ [])) ++ q ≡ path ++ (k ∷ q)
snoc_append [] q k = refl
snoc_append (j ∷ path) q k = ap (λ t. j ∷ t) (snoc_append path q k)

-- The value at a path is the mask; a step to an element of a list is "*".
abbrev mutual
  pub IsMaskedAt : Value → List String → Type 0
  IsMaskedAt (str s) p = ((s == sieve_learn_value_mask) ≡ true) × (p ≡ [])
  IsMaskedAt (list xs) p = IsMaskedItem xs p
  IsMaskedAt (dict d) p = IsMaskedField d p
  IsMaskedAt null p = ⊥
  IsMaskedAt (bool b) p = ⊥
  IsMaskedAt (num n) p = ⊥

  pub IsMaskedItem : Items → List String → Type 0
  IsMaskedItem nil p = ⊥
  IsMaskedItem (cons x xs) p =
      ((q : List String) × (p ≡ "*" ∷ q) × IsMaskedAt x q) ⊎ IsMaskedItem xs p

  pub IsMaskedField : Fields → List String → Type 0
  IsMaskedField end p = ⊥
  IsMaskedField (field k v d) p =
      ((q : List String) × (p ≡ k ∷ q) × IsMaskedAt v q) ⊎ IsMaskedField d p

-- A path of the list before, or one that goes on from `path`.
abbrev Found : List (List String) → List String → (List String → Type 0) → List String → Type 0
Found ml path P p = Among p ml ⊎ ((q : List String) × (p ≡ path ++ q) × P q)

append_nil : (path : List String) → path ++ [] ≡ path
append_nil [] = refl
append_nil (j ∷ path) = ap (λ t. j ∷ t) (append_nil path)

-- What is found below a step is found at the path.
Found-below :
    (ml : List (List String)) (path : List String) (k : String) (P : List String → Type 0)
    (p : List String)
    → Found ml (path ++ (k ∷ [])) P p
    → Among p ml ⊎ ((q : List String) × (p ≡ path ++ (k ∷ q)) × P q)
Found-below ml path k P p (inl a) = inl a
Found-below ml path k P p (inr (q, e, m)) = inr (q, e ∙ snoc_append path q k, m)

mutual
  unfolding generate_state_mask_helper

  helper-Found :
      (ml : List (List String)) (v : Value) (path p : List String)
      → Among p (generate_state_mask_helper ml v path)
      → Found ml path (IsMaskedAt v) p
  helper-Found ml null path p h = inl h
  helper-Found ml (bool b) path p h = inl h
  helper-Found ml (num n) path p h = inl h
  helper-Found ml (list xs) path p h = items-Found ml xs path p h
  helper-Found ml (dict d) path p h = fields-Found ml d path p h
  helper-Found ml (str s) path p h = elim (Bool-cases (s == sieve_learn_value_mask)) [
    | inr b ↦ inl (rw b at h)
    | inl b ↦ elim (Among-add_path p path ml (rw b at h)) [
      | inl a ↦ inl a
      | inr e ↦ inr ([], e ∙ sym (append_nil path), (b, refl))
    ]
  ]

  items-Found :
      (ml : List (List String)) (xs : Items) (path p : List String)
      → Among p (mask_items ml xs path)
      → Found ml path (IsMaskedItem xs) p
  items-Found ml nil path p h = inl h
  items-Found ml (cons x xs) path p h =
      elim (items-Found (generate_state_mask_helper ml x (path ++ ("*" ∷ []))) xs path p h) [
        | inr (q, e, m) ↦ inr (q, e, inr m)
        | inl a ↦
            elim (Found-below ml path "*" (IsMaskedAt x) p
              (helper-Found ml x (path ++ ("*" ∷ [])) p a)) [
                | inl a' ↦ inl a'
                | inr (q, e, m) ↦ inr ("*" ∷ q, e, inl (q, refl, m))
              ]
      ]

  fields-Found :
      (ml : List (List String)) (d : Fields) (path p : List String)
      → Among p (mask_fields ml d path)
      → Found ml path (IsMaskedField d) p
  fields-Found ml end path p h = inl h
  fields-Found ml (field k v d) path p h =
      elim (fields-Found (generate_state_mask_helper ml v (path ++ (k ∷ []))) d path p h) [
        | inr (q, e, m) ↦ inr (q, e, inr m)
        | inl a ↦
            elim (Found-below ml path k (IsMaskedAt v) p
              (helper-Found ml v (path ++ (k ∷ [])) p a)) [
                | inl a' ↦ inl a'
                | inr (q, e, m) ↦ inr (k ∷ q, e, inl (q, refl, m))
              ]
      ]

-- What is found at the path below a step.
below-Found :
    (ml : List (List String)) (path : List String) (k : String) (P : List String → Type 0)
    (p q r : List String)
    → p ≡ path ++ q
    → q ≡ k ∷ r
    → P r
    → Found ml (path ++ (k ∷ [])) P p
below-Found ml path k P p q r e f m =
    inr (r, e ∙ ap (λ t. path ++ t) f ∙ sym (snoc_append path r k), m)

mutual
  unfolding generate_state_mask_helper

  Found-helper :
      (ml : List (List String)) (v : Value) (path p : List String)
      → Found ml path (IsMaskedAt v) p
      → Among p (generate_state_mask_helper ml v path)
  Found-helper ml null path p h = elim h [ inl a ↦ a | inr (q, e, m) ↦ elim m [ ] ]
  Found-helper ml (bool b) path p h = elim h [ inl a ↦ a | inr (q, e, m) ↦ elim m [ ] ]
  Found-helper ml (num n) path p h = elim h [ inl a ↦ a | inr (q, e, m) ↦ elim m [ ] ]
  Found-helper ml (list xs) path p h = Found-items ml xs path p h
  Found-helper ml (dict d) path p h = Found-fields ml d path p h
  Found-helper ml (str s) path p h = elim (Bool-cases (s == sieve_learn_value_mask)) [
    | inr b ↦ rw b (elim h [ inl a ↦ a | inr (q, e, m) ↦ let f = rw b at m.0 in cc ])
    | inl b ↦ rw b (
        add_path-Among p path ml (elim h [
          | inl a ↦ inl a
          | inr (q, e, m) ↦ inr (e ∙ ap (λ t. path ++ t) m.1 ∙ append_nil path)
        ]))
  ]

  Found-items :
      (ml : List (List String)) (xs : Items) (path p : List String)
      → Found ml path (IsMaskedItem xs) p
      → Among p (mask_items ml xs path)
  Found-items ml nil path p h = elim h [ inl a ↦ a | inr (q, e, m) ↦ elim m [ ] ]
  Found-items ml (cons x xs) path p h =
      let step = path ++ ("*" ∷ []) in
      Found-items (generate_state_mask_helper ml x step) xs path p (elim h [
        | inl a ↦ inl (Found-helper ml x step p (inl a))
        | inr (q, e, inr m) ↦ inr (q, e, m)
        | inr (q, e, inl (r, f, m)) ↦
            inl (Found-helper ml x step p (below-Found ml path "*" (IsMaskedAt x) p q r e f m))
      ])

  Found-fields :
      (ml : List (List String)) (d : Fields) (path p : List String)
      → Found ml path (IsMaskedField d) p
      → Among p (mask_fields ml d path)
  Found-fields ml end path p h = elim h [ inl a ↦ a | inr (q, e, m) ↦ elim m [ ] ]
  Found-fields ml (field k v d) path p h =
      let step = path ++ (k ∷ []) in
      Found-fields (generate_state_mask_helper ml v step) d path p (elim h [
        | inl a ↦ inl (Found-helper ml v step p (inl a))
        | inr (q, e, inr m) ↦ inr (q, e, m)
        | inr (q, e, inl (r, f, m)) ↦
            inl (Found-helper ml v step p (below-Found ml path k (IsMaskedAt v) p q r e f m))
      ])

-- `generate_state_mask_helper` collects a path of an object, from an empty list and the empty path, if
-- and only if the path leads to a value that is masked, with the step "*" into each element of a list.
pub generate_state_mask_helper-IsMaskedAt :
    (v : Value) (p : List String) → Among p (generate_state_mask_helper [] v []) ↔ IsMaskedAt v p
generate_state_mask_helper-IsMaskedAt v p = (
  (λ h. elim (helper-Found [] v [] p h) [
    | inl a ↦ elim a [ ]
    | inr (q, e, m) ↦ subst (λ t. IsMaskedAt v t) (sym e) m
  ]),
  λ m. Found-helper [] v [] p (inr (p, refl, m)),
)
