-- ===== src/Event/Records.antt =====
-- The event classes of sieve_common/k8s_event.py, with their constructors. Fields that a setter may
-- write are record fields; a timestamp of -1 is one that is not set, and a reconcile id of -1 is
-- `none`. `json.loads` is the parameter `loads`.
use sieve.Prelude.{
  strip, ℕ, String, ◌==◌, Bool, not, List, [], ◌∷◌, Option, none, Result, ok, err, value_error,
  type_error, from_option, check, ◌>>=◌, ◌>>◌, ℤ, minus_one, ltb_ℤ, int, contains, if◌then◌else◌,
}
use sieve.Json.{Value, null, str, list, dict, Items, nil, cons, Fields, end, field, has, same}
use sieve.Event.WriteTypes
use sieve.Event.Types.{event_none_type}
use sieve.Event.Keys.{
  generate_key, extract_namespace_name, extract_name, as_dict, as_str, item, namespace_or_default,
}

pub record ApiEvent : Type 0 where
  pub etype : String
  pub original_key : String
  pub key : String
  pub rtype : String
  pub namespace : String
  pub name : String
  pub obj_str : String
  pub obj_map : Fields

pub record ControllerHear : Type 0 where
  pub id : ℤ
  pub etype : String
  pub rtype : String
  pub obj_str : String
  pub obj_map : Fields
  pub namespace : String
  pub name : String
  pub start_timestamp : ℤ
  pub end_timestamp : ℤ
  pub key : String
  pub slim_prev_obj_map : Option Fields
  pub slim_cur_obj_map : Option Fields
  pub prev_etype : String
  pub cancelled_by : List ℤ
  pub signature_counter : ℕ

pub record ControllerNonK8sWrite : Type 0 where
  pub id : ℤ
  pub module_name : String
  pub file_path : String
  pub recv_type : String
  pub fun_name : String
  pub reconcile_fun : String
  pub reconcile_id : Option String
  pub start_timestamp : ℤ
  pub end_timestamp : ℤ
  pub range_start_timestamp : ℤ
  pub range_end_timestamp : ℤ
  pub signature_counter : ℕ

pub record ControllerWrite : Type 0 where
  pub id : ℤ
  pub etype : String
  pub rtype : String
  pub reconcile_fun : String
  pub reconcile_id : Option String
  pub error : String
  pub obj_str : String
  pub obj_map : Fields
  pub namespace : String
  pub name : String
  pub start_timestamp : ℤ
  pub end_timestamp : ℤ
  pub range_start_timestamp : ℤ
  pub range_end_timestamp : ℤ
  pub read_types : List String
  pub read_keys : List String
  pub key : String
  pub prev_obj_map : Option Fields
  pub slim_prev_obj_map : Option Fields
  pub slim_cur_obj_map : Option Fields
  pub prev_etype : String
  pub signature_counter : ℕ

-- `key_to_obj` is a dict from keys to objects.
pub record ControllerRead : Type 0 where
  pub etype : String
  pub from_cache : Bool
  pub rtype : String
  pub reconcile_fun : String
  pub reconcile_id : Option String
  pub error : String
  pub key_to_obj : Fields
  pub key_set : List String
  pub end_timestamp : ℤ

pub record ReconcileBegin : Type 0 where
  pub reconcile_fun : String
  pub reconcile_id : String
  pub end_timestamp : ℤ

pub record ReconcileEnd : Type 0 where
  pub reconcile_fun : String
  pub reconcile_id : String
  pub end_timestamp : ℤ

-- What a parameter annotated `str` may be given: a text, or a Boolean.
unfoldable pub is_true_text : Value → Bool
unfolding same
is_true_text v = same v (str "true")

unfoldable pub to_int : String → Result ℤ
unfolding int strip
to_int s = from_option value_error (int (strip s))

-- `set_range`, on the two fields that it writes
unfoldable pub set_range : ℤ → ℤ → ControllerWrite → Result ControllerWrite
set_range start_timestamp end_timestamp w = do
  check (ltb_ℤ start_timestamp end_timestamp)
  ok (record w { range_start_timestamp = start_timestamp; range_end_timestamp = end_timestamp })

-- The objects of a `List` read, added to the keys and objects read so far.
unfoldable pub add_listed : String → Items → List String → Fields → Result (List String × Fields)
unfolding generate_key item namespace_or_default contains has
add_listed rtype nil keys objs = ok (keys, objs)
add_listed rtype (cons v vs) keys objs = do
  obj ← as_dict v
  meta_value ← item "metadata" obj
  meta ← as_dict meta_value
  namespace ← namespace_or_default meta
  name_value ← item "name" meta
  name ← as_str name_value
  let key = generate_key rtype namespace name
  check (not (contains key keys))
  check (not (has key objs))
  add_listed rtype vs (key ∷ keys) (field key (dict obj) objs)

-- `if objs is not None: for obj in objs`
unfoldable pub listed_objects : String → Value → Result (List String × Fields)
unfolding add_listed
listed_objects rtype null = ok ([], end)
listed_objects rtype (list vs) = add_listed rtype vs [] end
listed_objects rtype (dict end) = ok ([], end)
listed_objects rtype (str s) = if s == "" then ok ([], end) else err type_error
listed_objects rtype v = err type_error

module _ (loads : String → Result Value) where
  unfoldable pub init_api_event :
      String → String → String → String → String → String → Result ApiEvent
  unfolding generate_key
  init_api_event etype original_key rtype namespace name obj_str = do
    v ← loads obj_str
    obj_map ← as_dict v
    ok record {
      etype = etype;
      original_key = original_key;
      key = generate_key rtype namespace name;
      rtype = rtype;
      namespace = namespace;
      name = name;
      obj_str = obj_str;
      obj_map = obj_map;
    }

  unfoldable pub init_controller_hear : String → String → String → String → Result ControllerHear
  unfolding to_int extract_namespace_name generate_key
  init_controller_hear id etype rtype obj_str = do
    n ← to_int id
    v ← loads obj_str
    obj_map ← as_dict v
    names ← extract_namespace_name obj_map
    ok record {
      id = n;
      etype = etype;
      rtype = rtype;
      obj_str = obj_str;
      obj_map = obj_map;
      namespace = names.0;
      name = names.1;
      start_timestamp = minus_one;
      end_timestamp = minus_one;
      key = generate_key rtype names.0 names.1;
      slim_prev_obj_map = none;
      slim_cur_obj_map = none;
      prev_etype = event_none_type;
      cancelled_by = [];
      signature_counter = 1;
    }

  -- `do not handle DELETEALLOF for now`
  unfoldable pub init_controller_write :
      String → String → String → String → String → String → String → String → Result ControllerWrite
  unfolding to_int extract_name generate_key
  init_controller_write id etype reconcile_fun error rtype namespace name obj_str = do
    n ← to_int id
    check (not (etype == WriteTypes.deleteallof))
    v ← loads obj_str
    obj_map ← as_dict v
    full_name ← (if name == "" then extract_name obj_map else ok name)
    ok record {
      id = n;
      etype = etype;
      rtype = rtype;
      reconcile_fun = reconcile_fun;
      reconcile_id = none;
      error = error;
      obj_str = obj_str;
      obj_map = obj_map;
      namespace = namespace;
      name = full_name;
      start_timestamp = minus_one;
      end_timestamp = minus_one;
      range_start_timestamp = minus_one;
      range_end_timestamp = minus_one;
      read_types = [];
      read_keys = [];
      key = generate_key rtype namespace full_name;
      prev_obj_map = none;
      slim_prev_obj_map = none;
      slim_cur_obj_map = none;
      prev_etype = event_none_type;
      signature_counter = 1;
    }

  -- The objects of a read and their keys: one object for `Get`, and a list or `None` otherwise.
  unfoldable pub read_objects :
      String → String → String → String → String → Result (List String × Fields)
  unfolding generate_key listed_objects
  read_objects etype rtype namespace name obj_str =
      if etype == "Get"
      then (do
        v ← loads obj_str
        let key = generate_key rtype namespace name
        ok (key ∷ [], field key v end))
      else (do v ← loads obj_str; listed_objects rtype v)

  unfoldable pub init_controller_read :
      String → Value → String → String → String → String → String → String → Result ControllerRead
  unfolding is_true_text read_objects
  init_controller_read etype from_cache rtype namespace name reconcile_fun error obj_str = do
    objs ← read_objects etype rtype namespace name obj_str
    ok record {
      etype = etype;
      from_cache = is_true_text from_cache;
      rtype = rtype;
      reconcile_fun = reconcile_fun;
      reconcile_id = none;
      error = error;
      key_to_obj = objs.1;
      key_set = objs.0;
      end_timestamp = minus_one;
    }

unfoldable pub init_controller_non_k8s_write :
    String → String → String → String → String → String → Result ControllerNonK8sWrite
unfolding to_int
init_controller_non_k8s_write id module_name file_path recv_type fun_name reconcile_fun = do
  n ← to_int id
  ok record {
    id = n;
    module_name = module_name;
    file_path = file_path;
    recv_type = recv_type;
    fun_name = fun_name;
    reconcile_fun = reconcile_fun;
    reconcile_id = none;
    start_timestamp = minus_one;
    end_timestamp = minus_one;
    range_start_timestamp = minus_one;
    range_end_timestamp = minus_one;
    signature_counter = 1;
  }
