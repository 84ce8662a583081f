-- ===== src/Json.antt =====
-- The values that `json.loads` builds and the program walks: dicts, lists, texts, numbers, `True`,
-- `False` and `None`. A dict is the list of its items in insertion order; a list is `Items`.
-- Numbers are the integers; Kubernetes objects hold no floats.
pub mod Laws
pub mod Unique
pub mod Same
use sieve.Prelude.{
  ℕ, zero, suc, String, Bool, true, false, ◌&&◌, Option, none, some, ◌==◌, ℤ, pos, int_eq,
  if◌then◌else◌,
}

mutual
  pub data Value : Type 0 where
    null : Value
    bool : Bool → Value
    num : ℤ → Value
    str : String → Value
    list : Items → Value
    dict : Fields → Value

  pub data Items : Type 0 where
    nil : Items
    cons : Value → Items → Items

  pub data Fields : Type 0 where
    end : Fields
    field : String → Value → Fields → Fields

-- `d.get(key)`
unfoldable pub get : String → Fields → Option Value
get key end = none
get key (field k v d) = if k == key then some v else get key d

-- `key in d`
unfoldable pub has : String → Fields → Bool
has key end = false
has key (field k v d) = if k == key then true else has key d

-- `d.pop(key, None)`
unfoldable pub pop : String → Fields → Fields
pop key end = end
pop key (field k v d) = let rest = pop key d in if k == key then rest else field k v rest

-- The items of one dict, then those of another.
abbrev pub extend : Fields → Fields → Fields
extend end d = d
extend (field k v c) d = field k v (extend c d)

-- `len(l)`
abbrev pub items_length : Items → ℕ
items_length nil = zero
items_length (cons x xs) = suc (items_length xs)

abbrev pub int_of_bool : Bool → ℤ
int_of_bool true = pos 1
int_of_bool false = pos 0

-- Whether a value equals an integer: `True` equals 1 and `False` equals 0.
abbrev pub is_int : ℤ → Value → Bool
is_int n (bool b) = int_eq (int_of_bool b) n
is_int n (num m) = int_eq m n
is_int n _ = false

abbrev pub is_str : String → Value → Bool
is_str s (str t) = t == s
is_str s _ = false

abbrev pub is_null : Value → Bool
is_null null = true
is_null _ = false

-- Every key of the first dict is a key of the second.
unfoldable pub keys_within : Fields → Fields → Bool
keys_within end d = true
keys_within (field k v c) d = has k d && keys_within c d

-- `a == b`. Two dicts are equal if they have the same keys, with equal values.
unfoldable mutual
  pub same : Value → Value → Bool
  same a null = is_null a
  same a (bool b) = is_int (int_of_bool b) a
  same a (num n) = is_int n a
  same a (str s) = is_str s a
  same (list xs) (list ys) = same_items xs ys
  same _ (list ys) = false
  same (dict c) (dict d) = keys_within c d && same_fields c d
  same _ (dict d) = false

  pub same_items : Items → Items → Bool
  same_items nil nil = true
  same_items (cons x xs) nil = false
  same_items nil (cons y ys) = false
  same_items (cons x xs) (cons y ys) = same x y && same_items xs ys

  -- Every item of the second dict has an equal one in the first.
  pub same_fields : Fields → Fields → Bool
  same_fields c end = true
  same_fields c (field k w d) =
      let rest = same_fields c d in elim (get k c) [ none ↦ false | some v ↦ same v w && rest ]
