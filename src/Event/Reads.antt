-- ===== src/Event/Reads.antt =====
-- What a `ControllerRead` of sieve_common/k8s_event.py holds once it is built.
use sieve.Prelude.{
  ℕ, String, ◌==◌, ◌≡◌, refl, ap, Bool, true, false, not, List, [], ◌∷◌, Result, ok, err,
  type_error, ◌>>=◌, Ensures, Ensures-ok, Ensures-bind, Ensures-check, contains, if◌then◌else◌,
}
use sieve.Json.{
  Value, null, bool, num, str, list, dict, Items, nil, cons, Fields, end, field, has, same,
}
use sieve.Event.Keys.{generate_key, as_dict, as_str, item, namespace_or_default}
use sieve.Event.Records.{
  ControllerRead, add_listed, listed_objects, read_objects, init_controller_read, is_true_text,
}
use sieve.Event.Parse.{parse_controller_cache_read, tokens_from, token, sieve_after_cache_read_mark}

abbrev pub keys_of : Fields → List String
keys_of end = []
keys_of (field k v d) = k ∷ keys_of d

abbrev pub Distinct : Fields → Type 0
Distinct end = Unit
Distinct (field k v d) = (has k d ≡ false) × Distinct d

-- The set of keys and the dict agree, and no key stands twice.
abbrev pub Keyed : List String × Fields → Type 0
Keyed (keys, objs) = (keys ≡ keys_of objs) × Distinct objs

not-true : {b : Bool} → not b ≡ true → b ≡ false
not-true {b = true} h = cc
not-true {b = false} h = refl

add_listed-Keyed :
    (rtype : String) (vs : Items) (keys : List String) (objs : Fields)
    → Keyed (keys, objs)
    → Ensures Keyed (add_listed rtype vs keys objs)
unfolding add_listed
add_listed-Keyed rtype nil keys objs k = k
add_listed-Keyed rtype (cons v vs) keys objs (e, d) = Ensures-bind Keyed (as_dict v) _ λ obj _.
    Ensures-bind Keyed (item "metadata" obj) _ λ meta_value _.
      Ensures-bind Keyed (as_dict meta_value) _ λ meta _.
        Ensures-bind Keyed (namespace_or_default meta) _ λ namespace _.
          Ensures-bind Keyed (item "name" meta) _ λ name_value _.
            Ensures-bind Keyed (as_str name_value) _ λ name _.
              let key = generate_key rtype namespace name in
              Ensures-check Keyed (not (contains key keys)) _ λ _.
                Ensures-check Keyed (not (has key objs)) _ λ h.
                  add_listed-Keyed rtype vs (key ∷ keys) (field key (dict obj) objs)
                    (ap (λ ks. key ∷ ks) e, (not-true h, d))

either :
    {A : Type 0} (P : A → Type 0) (b : Bool) (m n : Result A)
    → Ensures P m
    → Ensures P n
    → Ensures P (if b then m else n)
either P true m n h k = h
either P false m n h k = k

listed_objects-Keyed : (rtype : String) (v : Value) → Ensures Keyed (listed_objects rtype v)
unfolding listed_objects
listed_objects-Keyed rtype null = (refl, tt)
listed_objects-Keyed rtype (list vs) = add_listed-Keyed rtype vs [] end (refl, tt)
listed_objects-Keyed rtype (bool b) = tt
listed_objects-Keyed rtype (num n) = tt
listed_objects-Keyed rtype (str s) =
    either Keyed (s == "") (ok ([], end)) (err type_error) (refl, tt) tt
listed_objects-Keyed rtype (dict end) = (refl, tt)
listed_objects-Keyed rtype (dict (field k v d)) = tt

module _ (loads : String → Result Value) where
  read_objects-Keyed :
      (etype rtype namespace name obj_str : String)
      → Ensures Keyed (read_objects loads etype rtype namespace name obj_str)
  unfolding read_objects has
  read_objects-Keyed etype rtype namespace name obj_str =
      either Keyed (etype == "Get") _ _
        (Ensures-bind Keyed (loads obj_str) _ λ v _. (refl, (refl, tt)))
        (Ensures-bind Keyed (loads obj_str) _ λ v _. listed_objects-Keyed rtype v)

  -- The key set of a read that is built holds exactly the keys of its objects, each once.
  pub init_controller_read-Keyed :
      (etype : String) (from_cache : Value)
      (rtype namespace name reconcile_fun error obj_str : String) (r : ControllerRead)
      → init_controller_read loads etype from_cache rtype namespace name reconcile_fun error obj_str
        ≡ ok r
      → Keyed (r.key_set, r.key_to_obj)
  unfolding init_controller_read
  init_controller_read-Keyed etype from_cache rtype namespace name reconcile_fun error obj_str r =
      Ensures-ok (λ (r : ControllerRead). Keyed (r.key_set, r.key_to_obj))
        (init_controller_read loads etype from_cache rtype namespace name reconcile_fun error
          obj_str)
        (Ensures-bind {B = ControllerRead} (λ r. Keyed (r.key_set, r.key_to_obj))
          (read_objects loads etype rtype namespace name obj_str) _
          λ objs e.
            Ensures-ok Keyed (read_objects loads etype rtype namespace name obj_str)
              (read_objects-Keyed etype rtype namespace name obj_str) e)

  abbrev FromRest : ControllerRead → Type 0
  FromRest r = r.from_cache ≡ false

  init_controller_read-FromRest :
      (b : Bool) (etype rtype namespace name reconcile_fun error obj_str : String)
      → Ensures FromRest (
          init_controller_read loads etype
            (bool b)
            rtype
            namespace
            name
            reconcile_fun
            error
            obj_str)
  unfolding init_controller_read is_true_text same
  init_controller_read-FromRest b etype rtype namespace name reconcile_fun error obj_str =
      Ensures-bind FromRest (read_objects loads etype rtype namespace name obj_str) _ λ objs e. refl

  -- A step of a parser that takes another token.
  then_token :
      (tokens : List String) (i : ℕ) (k : String → Result ControllerRead)
      → ((s : String) → Ensures FromRest (k s))
      → Ensures FromRest (token tokens i >>= k)
  then_token tokens i k h = Ensures-bind FromRest (token tokens i) k λ s _. h s

  parse_controller_cache_read-Ensures :
      (line : String) → Ensures FromRest (parse_controller_cache_read loads line)
  unfolding parse_controller_cache_read
  parse_controller_cache_read-Ensures line =
      Ensures-bind FromRest (tokens_from sieve_after_cache_read_mark line) _ λ tokens _.
        then_token tokens 1 _ λ etype.
          either FromRest (etype == "Get") _ _
            (then_token tokens 2 _ λ rtype. then_token tokens 3 _ λ namespace.
              then_token tokens 4 _ λ name. then_token tokens 5 _ λ fun.
                then_token tokens 6 _ λ error. then_token tokens 7 _ λ obj.
                  init_controller_read-FromRest true etype rtype namespace name fun error obj)
            (either FromRest (etype == "List") _ _
              (then_token tokens 2 _ λ rtype. then_token tokens 3 _ λ fun.
                then_token tokens 4 _ λ error.
                  then_token tokens 5 _
                    λ obj. init_controller_read-FromRest true etype rtype "" "" fun error obj)
              tt)

  -- A read that is parsed from a line of a read from the cache does not say so: its `from_cache` is
  -- `False`, since the parser passes a Boolean where the constructor tests for the text "true".
  pub parse_controller_cache_read-from_cache :
      (line : String) (r : ControllerRead)
      → parse_controller_cache_read loads line ≡ ok r
      → r.from_cache ≡ false
  parse_controller_cache_read-from_cache line r =
      Ensures-ok FromRest (parse_controller_cache_read loads line)
        (parse_controller_cache_read-Ensures line)
