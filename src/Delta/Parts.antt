-- ===== src/Delta/Parts.antt =====
-- A difference shows only what its objects hold: each half is part of the object it was taken from.
use sieve.Prelude.{
  String, ◌≡◌, refl, eq_refl, Bool, true, false, Option, none, some, arith, subst, if◌then◌else◌,
}
use sieve.Json.{
  Value, null, bool, num, str, list, dict, Items, nil, cons, Fields, end, field, get, extend, same,
  int_of_bool, keys_within,
}
use sieve.Json.Laws.{has-get}
use sieve.Json.Same.{int_eq_refl}
use sieve.Json.Unique.{IsUnique, UniqueItems, UniqueFields, Within, Within-refl, UniqueFields-get}
use sieve.Delta.Diff.{
  item_diff, add_item, add_key, finish_list, without_keys, finish_map, both_lists, both_dicts,
  diff_value, diff_items, diff_common, diff_event_as_map,
}
use sieve.Delta.Part.{part_of_value, part_of_event_as_list, part_of_fields, part_of_event_as_map}

keys_within-part_of_fields : (c d : Fields) → part_of_fields c d ≡ true → keys_within c d ≡ true
unfolding part_of_fields keys_within
keys_within-part_of_fields end d h = refl
keys_within-part_of_fields (field k v c) d h =
    ground (arith, has-get k d, keys_within-part_of_fields c d)

part_of_event_as_map-part_of_fields :
    (c d : Fields) → part_of_fields c d ≡ true → part_of_event_as_map c d ≡ true
unfolding part_of_event_as_map
part_of_event_as_map-part_of_fields c d h = ground (arith, keys_within-part_of_fields c d h)

part_of_fields-field :
    (k : String) (v w : Value) (c d : Fields)
    → get k d ≡ some w
    → part_of_value v w ≡ true
    → part_of_fields c d ≡ true
    → part_of_fields (field k v c) d ≡ true
unfolding part_of_fields
part_of_fields-field k v w c d e h r = ground arith

-- Every value is part of itself.
mutual
  unfolding part_of_value part_of_event_as_map same

  part_of_value_refl : (v : Value) → IsUnique v → part_of_value v v ≡ true
  part_of_value_refl (dict d) u =
      part_of_event_as_map-part_of_fields d d (part_of_fields-Within d d u (Within-refl d u))
  part_of_value_refl (list xs) u = part_of_event_as_list_refl xs u
  part_of_value_refl (str s) u = eq_refl s
  part_of_value_refl (num n) u = int_eq_refl n
  part_of_value_refl (bool b) u = int_eq_refl (int_of_bool b)
  part_of_value_refl null u = refl

  part_of_event_as_list_refl : (xs : Items) → UniqueItems xs → part_of_event_as_list xs xs ≡ true
  part_of_event_as_list_refl nil u = refl
  part_of_event_as_list_refl (cons x xs) u =
      ground (arith, part_of_value_refl x u.0, part_of_event_as_list_refl xs u.1)

  part_of_fields-Within : (c d : Fields) → UniqueFields c → Within c d → part_of_fields c d ≡ true
  part_of_fields-Within end d u w = refl
  part_of_fields-Within (field k v c) d u w =
      part_of_fields-field k v v c d w.0 (part_of_value_refl v u.1)
        (part_of_fields-Within c d u.2 w.1)

-- What a difference shows is part of the two values.
abbrev Parts : Value → Value → Option (Value × Value) → Type 0
Parts v w none = Unit
Parts v w (some (a, b)) = (part_of_value a v ≡ true) × (part_of_value b w ≡ true)

abbrev ListParts : Items → Items → Items × Items → Type 0
ListParts xs ys (a, b) = (part_of_event_as_list a xs ≡ true) × (part_of_event_as_list b ys ≡ true)

abbrev MapParts : Fields → Fields → Fields × Fields → Type 0
MapParts c d (a, b) = (part_of_fields a c ≡ true) × (part_of_fields b d ≡ true)

part_of_fields-extend :
    (a b c : Fields)
    → part_of_fields a c ≡ true
    → part_of_fields b c ≡ true
    → part_of_fields (extend a b) c ≡ true
unfolding part_of_fields
part_of_fields-extend end b c h r = r
part_of_fields-extend (field k v a) b c h r = ground (arith, part_of_fields-extend a b c)

part_of_fields-without_keys :
    (c d whole : Fields)
    → UniqueFields c
    → Within c whole
    → part_of_fields (without_keys c d) whole ≡ true
unfolding without_keys part_of_fields
part_of_fields-without_keys end d whole u w = refl
part_of_fields-without_keys (field k v c) d whole u w = ground (
  arith,
  part_of_fields-field k v v (without_keys c d) whole w.0 (part_of_value_refl v u.1),
  part_of_fields-without_keys c d whole u.2 w.1,
)

-- One more pair of items: where nothing changed the marks are skipped.
ListParts-step :
    (x y : Value) (xs ys : Items) (o : Option (Value × Value)) (rest : Items × Items)
    → Parts x y o
    → ListParts xs ys rest
    → ListParts (cons x xs) (cons y ys) (add_item (item_diff o) rest)
unfolding part_of_event_as_list
ListParts-step x y xs ys none rest p r = ground arith
ListParts-step x y xs ys (some (a, b)) rest p r = ground arith

finish_list-Parts :
    (xs ys : Items) (d : Items × Items)
    → ListParts xs ys d
    → Parts (list xs) (list ys) (both_lists (finish_list xs ys d))
unfolding finish_list part_of_value
finish_list-Parts xs ys d h = ground arith

part_of_value-dict :
    (a c : Fields) → part_of_fields a c ≡ true → part_of_value (dict a) (dict c) ≡ true
unfolding part_of_value part_of_event_as_map
part_of_value-dict a c h = part_of_event_as_map-part_of_fields a c h

Parts-unless :
    (c d a b : Fields) (test : Bool)
    → part_of_value (dict a) (dict c) ≡ true
    → part_of_value (dict b) (dict d) ≡ true
    → Parts (dict c) (dict d) (both_dicts (if test then none else some (a, b)))
Parts-unless c d a b true h k = tt
Parts-unless c d a b false h k = (h, k)

finish_map-Parts :
    (c d : Fields) (rest : Fields × Fields)
    → UniqueFields c
    → UniqueFields d
    → MapParts c d rest
    → Parts (dict c) (dict d) (both_dicts (finish_map c d rest))
unfolding finish_map
finish_map-Parts c d rest uc ud h =
    Parts-unless c d _ _ _
      (part_of_value-dict _ c (
        part_of_fields-extend rest.0 (without_keys c d) c h.0
          (part_of_fields-without_keys c d c uc (Within-refl c uc))))
      (part_of_value-dict _ d (
        part_of_fields-extend rest.1 (without_keys d c) d h.1
          (part_of_fields-without_keys d c d ud (Within-refl d ud))))

-- One more common key.
key-Parts :
    (c whole : Fields) (k : String) (v w : Value) (o : Option (Value × Value))
    (rest : Fields × Fields)
    → get k c ≡ some v
    → get k whole ≡ some w
    → Parts v w o
    → MapParts c whole rest
    → MapParts c whole (add_key k o rest)
key-Parts c whole k v w none rest e f p r = r
key-Parts c whole k v w (some (a, b)) rest e f p r = (
  part_of_fields-field k a v rest.0 c e p.0 r.0,
  part_of_fields-field k b w rest.1 whole f p.1 r.1,
)

-- One more item of the current dict, by what the previous dict holds at its key.
MapParts-step :
    (c whole : Fields) (k : String) (w : Value) (o : Option Value) (rest : Fields × Fields)
    → get k c ≡ o
    → get k whole ≡ some w
    → ((v : Value) → get k c ≡ some v → Parts v w (diff_value v w))
    → MapParts c whole rest
    → MapParts c whole (elim o [ none ↦ rest | some v ↦ add_key k (diff_value v w) rest ])
MapParts-step c whole k w none rest e f p r = r
MapParts-step c whole k w (some v) rest e f p r =
    key-Parts c whole k v w (diff_value v w) rest e f (p v e) r

-- A pair of values that is kept whole, or left out.
whole-Parts :
    (v w : Value) (test : Bool)
    → IsUnique v
    → IsUnique w
    → Parts v w (if test then none else some (v, w))
whole-Parts v w true u t = tt
whole-Parts v w false u t = (part_of_value_refl v u, part_of_value_refl w t)

nil_part : part_of_event_as_list nil nil ≡ true
unfolding part_of_event_as_list
nil_part = refl

end_part : (c : Fields) → part_of_fields end c ≡ true
unfolding part_of_fields
end_part c = refl

mutual
  unfolding diff_value

  diff_value-Parts : (v w : Value) → IsUnique v → IsUnique w → Parts v w (diff_value v w)
  diff_value-Parts (dict c) (dict d) u t =
      finish_map-Parts c d (diff_common c d) u t (diff_common-MapParts c d d u t (Within-refl d t))
  diff_value-Parts (list xs) (list ys) u t =
      finish_list-Parts xs ys (diff_items xs ys) (diff_items-ListParts xs ys u t)
  diff_value-Parts v (list ys) u t = (part_of_value_refl v u, part_of_value_refl (list ys) t)
  diff_value-Parts v (dict d) u t = (part_of_value_refl v u, part_of_value_refl (dict d) t)
  diff_value-Parts v null u t = whole-Parts v null (same v null) u t
  diff_value-Parts v (bool b) u t = whole-Parts v (bool b) (same v (bool b)) u t
  diff_value-Parts v (num n) u t = whole-Parts v (num n) (same v (num n)) u t
  diff_value-Parts v (str s) u t = whole-Parts v (str s) (same v (str s)) u t

  diff_items-ListParts :
      (xs ys : Items) → UniqueItems xs → UniqueItems ys → ListParts xs ys (diff_items xs ys)
  diff_items-ListParts nil ys u t = (nil_part, part_of_event_as_list_refl ys t)
  diff_items-ListParts (cons x xs) nil u t = (part_of_event_as_list_refl (cons x xs) u, nil_part)
  diff_items-ListParts (cons x xs) (cons y ys) u t =
      ListParts-step x y xs ys (diff_value x y) (diff_items xs ys) (diff_value-Parts x y u.0 t.0)
        (diff_items-ListParts xs ys u.1 t.1)

  diff_common-MapParts :
      (c d whole : Fields)
      → UniqueFields c
      → UniqueFields d
      → Within d whole
      → MapParts c whole (diff_common c d)
  diff_common-MapParts c end whole u t h = (end_part c, end_part whole)
  diff_common-MapParts c (field k w d) whole u t h =
      MapParts-step c whole k w (get k c) (diff_common c d) refl h.0
        (λ v e. diff_value-Parts v w (UniqueFields-get k c u e) t.1)
        (diff_common-MapParts c d whole u t.2 h.1)

-- For objects whose dicts hold each key once, at every depth, both halves of a difference are parts
-- of the objects that they were taken from.
pub diff_event_as_map-parts :
    (prev cur a b : Fields)
    → UniqueFields prev
    → UniqueFields cur
    → diff_event_as_map prev cur ≡ some (a, b)
    → (part_of_event_as_map a prev ≡ true) × (part_of_event_as_map b cur ≡ true)
unfolding diff_event_as_map diff_value part_of_value part_of_event_as_map
diff_event_as_map-parts prev cur a b u t e =
    subst (λ o. Parts (dict prev) (dict cur) (both_dicts o)) e
      (diff_value-Parts (dict prev) (dict cur) u t)
