-- ===== src/Delta/Masking/Paths.antt =====
-- What masking leaves at each place of an object: `get_path` follows the keys and indices of a path.
use sieve.Prelude.{
  ℕ, zero, suc, String, ◌≡◌, refl, ap, ◌∙◌, Bool, true, false, Bool-cases, ◌||◌, ◌==◌, eq_iff, List,
  [], ◌∷◌, ◌++◌, contains, Option, none, some, ok, index_error, key_error, from_option-ok, ok_inj,
  >>=-eq-ok, if◌then◌else◌, inl, inr,
}
use sieve.Json.{Value, null, bool, num, str, list, dict, Items, nil, cons, Fields, end, field, get}
use sieve.Common.{sieve_value_mask, match_mask_regex}
use sieve.Event.Keys.{item}
use sieve.Oracle.Masks.{PathItem, key, index}
use sieve.Oracle.Trim.{item_at, step_into, get_path}
use sieve.Delta.Canonical.{
  path_join, canonicalize_value, canonicalize_below, canonicalize_event_as_list,
  canonicalize_event_as_map, canonicalize_event,
}

-- The joined path of a step: an index counts as `*`.
abbrev pub joined : String → PathItem → String
joined parent (key k) = path_join parent k
joined parent (index i) = path_join parent "*"

abbrev pub joined_all : String → List PathItem → String
joined_all parent [] = parent
joined_all parent (step ∷ path) = joined_all (joined parent step) path

-- What masking makes of a value that is neither a list nor a dict.
abbrev pub masked_scalar : Value → Option Value
masked_scalar null = some null
masked_scalar (bool b) = some (bool b)
masked_scalar (num n) = some (num n)
masked_scalar (str s) = some (str (if match_mask_regex s then sieve_value_mask else s))
masked_scalar (list xs) = none
masked_scalar (dict d) = none

module _ (masked_keys masked_paths : List String) where
  -- Whether the value at a step is masked as a whole.
  abbrev pub is_masked_step : String → PathItem → Bool
  is_masked_step parent (key k) =
      contains k masked_keys || contains (path_join parent k) masked_paths
  is_masked_step parent (index i) = contains (path_join parent "*") masked_paths

  -- No step of the path is masked.
  abbrev pub IsOpen : String → List PathItem → Type 0
  IsOpen parent [] = Unit
  IsOpen parent (step ∷ path) =
      (is_masked_step parent step ≡ false) × IsOpen (joined parent step) path

  -- What masking leaves at a step.
  abbrev step_result : String → PathItem → Value → Value
  step_result parent step v =
      if is_masked_step parent step
      then str sieve_value_mask
      else canonicalize_below masked_keys masked_paths v (joined parent step)

  get-canonicalize :
      (k : String) (v : Value) (d : Fields) (parent : String)
      → get k d ≡ some v
      → get k (canonicalize_event_as_map masked_keys masked_paths d parent)
        ≡ some (step_result parent (key k) v)
  unfolding get canonicalize_event_as_map
  get-canonicalize k v end parent e = cc
  get-canonicalize k v (field j w d) parent e = elim (Bool-cases (j == k)) [
    | inr q ↦ rw q (get-canonicalize k v d parent (rw q at e))
    | inl q ↦
        let same : j ≡ k = (eq_iff j k).0 q in
        let found : some w ≡ some v = rw q at e in
        let w≡v : w ≡ v = cc in rw q (rw (same, w≡v) refl)
  ]

  item_at-canonicalize :
      (i : ℕ) (v : Value) (xs : Items) (parent : String)
      → item_at i xs ≡ some v
      → item_at i (canonicalize_event_as_list masked_keys masked_paths xs parent)
        ≡ some (step_result parent (index i) v)
  unfolding item_at canonicalize_event_as_list
  item_at-canonicalize i v nil parent e = cc
  item_at-canonicalize zero v (cons x xs) parent e = let same : x ≡ v = cc in rw same refl
  item_at-canonicalize (suc i) v (cons x xs) parent e = item_at-canonicalize i v xs parent e

  step_into-canonicalize :
      (step : PathItem) (v w : Value) (parent : String)
      → step_into step w ≡ ok v
      → step_into step (canonicalize_below masked_keys masked_paths w parent)
        ≡ ok (step_result parent step v)
  unfolding step_into item canonicalize_below
  step_into-canonicalize (key k) v (dict d) parent e =
      rw (get-canonicalize k v d parent (from_option-ok key_error (get k d) e)) refl
  step_into-canonicalize (index i) v (list xs) parent e =
      rw (item_at-canonicalize i v xs parent (from_option-ok index_error (item_at i xs) e)) refl
  step_into-canonicalize (key k) v null parent e = cc
  step_into-canonicalize (key k) v (bool b) parent e = cc
  step_into-canonicalize (key k) v (num n) parent e = cc
  step_into-canonicalize (key k) v (str s) parent e = cc
  step_into-canonicalize (key k) v (list xs) parent e = cc
  step_into-canonicalize (index i) v null parent e = cc
  step_into-canonicalize (index i) v (bool b) parent e = cc
  step_into-canonicalize (index i) v (num n) parent e = cc
  step_into-canonicalize (index i) v (str s) parent e = cc
  step_into-canonicalize (index i) v (dict d) parent e = cc

  -- A path without masked steps leads to the masked form of what it led to.
  get_path-IsOpen :
      (path : List PathItem) (v w : Value) (parent : String)
      → IsOpen parent path
      → get_path path w ≡ ok v
      → get_path path (canonicalize_below masked_keys masked_paths w parent)
        ≡ ok (canonicalize_below masked_keys masked_paths v (joined_all parent path))
  unfolding get_path
  get_path-IsOpen [] v w parent shown e =
      ap (λ x. ok (canonicalize_below masked_keys masked_paths x parent)) (ok_inj e)
  get_path-IsOpen (step ∷ path) v w parent shown e =
      let (inner, p, q) = >>=-eq-ok (step_into step w) _ e in
      rw (step_into-canonicalize step inner w parent p, shown.0)
        (get_path-IsOpen path v inner (joined parent step) shown.1 q)

  get_path-append :
      (front back : List PathItem) (v w : Value)
      → get_path front w ≡ ok v
      → get_path (front ++ back) w ≡ get_path back v
  unfolding get_path
  get_path-append [] back v w e = rw (ok_inj e) refl
  get_path-append (step ∷ front) back v w e =
      let (inner, p, q) = >>=-eq-ok (step_into step w) _ e in
      rw p (get_path-append front back v inner q)

  get_path-split :
      (front back : List PathItem) (v w : Value)
      → get_path (front ++ back) w ≡ ok v
      → (u : Value) × (get_path front w ≡ ok u) × (get_path back u ≡ ok v)
  unfolding get_path
  get_path-split [] back v w e = (w, refl, e)
  get_path-split (step ∷ front) back v w e =
      let (inner, p, q) = >>=-eq-ok (step_into step w) _ e in
      let (u, f, b) = get_path-split front back v inner q in (u, rw p f, b)

  canonicalize_below-masked_scalar :
      (v v' : Value) (path : String)
      → masked_scalar v ≡ some v'
      → canonicalize_below masked_keys masked_paths v path ≡ v'
  unfolding canonicalize_below canonicalize_value
  canonicalize_below-masked_scalar null v' path e = cc
  canonicalize_below-masked_scalar (bool b) v' path e = cc
  canonicalize_below-masked_scalar (num n) v' path e = cc
  canonicalize_below-masked_scalar (str s) v' path e =
      (let f : str (if match_mask_regex s then sieve_value_mask else s) ≡ v' = cc in f)
  canonicalize_below-masked_scalar (list xs) v' path e = cc
  canonicalize_below-masked_scalar (dict d) v' path e = cc

  -- If a path leads to a text, a number, a Boolean or `None` in an event, and none of its steps has a
  -- masked key or a masked path, then in the masked event it leads to the same value, but to the mask
  -- instead of a text that matches one of the patterns.
  pub canonicalize_event-IsOpen :
      (event : Fields) (path : List PathItem) (v v' : Value)
      → IsOpen "" path
      → get_path path (dict event) ≡ ok v
      → masked_scalar v ≡ some v'
      → get_path path (dict (canonicalize_event masked_keys masked_paths event)) ≡ ok v'
  unfolding canonicalize_event canonicalize_below
  canonicalize_event-IsOpen event path v v' shown e scalar =
      get_path-IsOpen path v (dict event) "" shown e
      ∙ ap ok (canonicalize_below-masked_scalar v v' (joined_all "" path) scalar)

  -- If a path leads to a value in an event, its last step has a masked key or a masked path, and no
  -- step before it has one, then in the masked event it leads to the mask, whatever the value is.
  pub canonicalize_event-is_masked_step :
      (event : Fields) (front : List PathItem) (step : PathItem) (v : Value)
      → IsOpen "" front
      → is_masked_step (joined_all "" front) step ≡ true
      → get_path (front ++ (step ∷ [])) (dict event) ≡ ok v
      → get_path (front ++ (step ∷ [])) (dict (canonicalize_event masked_keys masked_paths event))
        ≡ ok (str sieve_value_mask)
  unfolding canonicalize_event canonicalize_below get_path
  canonicalize_event-is_masked_step event front step v shown masked e =
      let (u, p, q) = get_path-split front (step ∷ []) v (dict event) e in
      let (inner, f, _) = >>=-eq-ok (step_into step u) _ q in
      get_path-append front (step ∷ [])
        (canonicalize_below masked_keys masked_paths u (joined_all "" front))
        (dict (canonicalize_event_as_map masked_keys masked_paths event ""))
        (get_path-IsOpen front u (dict event) "" shown p)
      ∙ rw (step_into-canonicalize step inner u (joined_all "" front) f, masked) refl
