-- ===== src/Event/Parse.antt =====
-- The `parse_` functions of sieve_common/k8s_event.py, which read an event from a log line.
use sieve.Prelude.{
  String, ◌==◌, Bool, true, false, List, none, some, Result, ok, err, index_error, assertion_error,
  from_option, ◌>>=◌, ◌⊎◌, inl, inr, ℤ, ℕ, minus_one, from_mark, strip_left, strip_right, split,
  get_elem?, if◌then◌else◌,
}
use sieve.Json.{Value, bool}
use sieve.Event.Records.{
  ApiEvent, ControllerHear, ControllerNonK8sWrite, ControllerWrite, ControllerRead, ReconcileBegin,
  ReconcileEnd, to_int, init_api_event, init_controller_hear, init_controller_write,
  init_controller_read, init_controller_non_k8s_write,
}

abbrev pub sieve_before_hear_mark : String
sieve_before_hear_mark = "[SIEVE-BEFORE-HEAR]"

abbrev pub sieve_after_hear_mark : String
sieve_after_hear_mark = "[SIEVE-AFTER-HEAR]"

abbrev pub sieve_before_rest_write_mark : String
sieve_before_rest_write_mark = "[SIEVE-BEFORE-REST-WRITE]"

abbrev pub sieve_after_rest_write_mark : String
sieve_after_rest_write_mark = "[SIEVE-AFTER-REST-WRITE]"

abbrev pub sieve_after_rest_read_mark : String
sieve_after_rest_read_mark = "[SIEVE-AFTER-REST-READ]"

abbrev pub sieve_after_cache_read_mark : String
sieve_after_cache_read_mark = "[SIEVE-AFTER-CACHE-READ]"

abbrev pub sieve_before_reconcile_mark : String
sieve_before_reconcile_mark = "[SIEVE-BEFORE-RECONCILE]"

abbrev pub sieve_after_reconcile_mark : String
sieve_after_reconcile_mark = "[SIEVE-AFTER-RECONCILE]"

abbrev pub sieve_before_annotated_api_invocation_mark : String
sieve_before_annotated_api_invocation_mark = "[SIEVE-BEFORE-ANNOTATED-API-INVOCATION]"

abbrev pub sieve_after_annotated_api_invocation_mark : String
sieve_after_annotated_api_invocation_mark = "[SIEVE-AFTER-ANNOTATED-API-INVOCATION]"

abbrev pub sieve_api_event_mark : String
sieve_api_event_mark = "[SIEVE-API-EVENT]"

-- `mark in line`
unfoldable pub in_line : String → String → Bool
unfolding from_mark
in_line mark line = elim (from_mark mark line) [ none ↦ false | some s ↦ true ]

-- `assert mark in line`, then `line[line.find(mark):].strip("\n").split("\t")`
unfoldable pub tokens_from : String → String → Result (List String)
unfolding from_mark strip_left strip_right split
tokens_from mark line = do
  s ← from_option assertion_error (from_mark mark line)
  ok (split 9 (strip_right (strip_left s)))

-- `tokens[i]`
abbrev pub token : List String → ℕ → Result String
token tokens i = from_option index_error (get_elem? tokens i)

-- The tokens after a line's first mark, if it has it, and after the second otherwise.
unfoldable pub tokens_from_either : String → String → String → Result (List String)
unfolding in_line tokens_from
tokens_from_either first second line =
    if in_line first line then tokens_from first line else tokens_from second line

unfoldable pub parse_id_only : String → String → String → Result ℤ
unfolding tokens_from_either to_int
parse_id_only first second line = do
  tokens ← tokens_from_either first second line
  id ← token tokens 1
  to_int id

unfoldable pub parse_controller_hear_id_only : String → Result ℤ
unfolding parse_id_only
parse_controller_hear_id_only line = parse_id_only sieve_after_hear_mark sieve_before_hear_mark line

unfoldable pub parse_controller_write_id_only : String → Result ℤ
unfolding parse_id_only
parse_controller_write_id_only line =
    parse_id_only sieve_after_rest_write_mark sieve_before_rest_write_mark line

unfoldable pub parse_controller_non_k8s_write_id_only : String → Result ℤ
unfolding parse_id_only
parse_controller_non_k8s_write_id_only line =
    parse_id_only sieve_after_annotated_api_invocation_mark
      sieve_before_annotated_api_invocation_mark line

unfoldable pub parse_controller_non_k8s_write : String → Result ControllerNonK8sWrite
unfolding tokens_from init_controller_non_k8s_write
parse_controller_non_k8s_write line = do
  tokens ← tokens_from sieve_after_annotated_api_invocation_mark line
  a ← token tokens 1
  b ← token tokens 2
  c ← token tokens 3
  d ← token tokens 4
  e ← token tokens 5
  f ← token tokens 6
  init_controller_non_k8s_write a b c d e f

unfoldable pub parse_reconcile : String → Result (ReconcileBegin ⊎ ReconcileEnd)
unfolding in_line tokens_from
parse_reconcile line =
    if in_line sieve_before_reconcile_mark line
    then (do
      tokens ← tokens_from sieve_before_reconcile_mark line
      a ← token tokens 1
      b ← token tokens 2
      ok (inl (record { reconcile_fun = a; reconcile_id = b; end_timestamp = minus_one })))
    else (do
      tokens ← tokens_from sieve_after_reconcile_mark line
      a ← token tokens 1
      b ← token tokens 2
      ok (inr (record { reconcile_fun = a; reconcile_id = b; end_timestamp = minus_one })))

module _ (loads : String → Result Value) where
  unfoldable pub parse_controller_hear : String → Result ControllerHear
  unfolding tokens_from init_controller_hear
  parse_controller_hear line = do
    tokens ← tokens_from sieve_before_hear_mark line
    a ← token tokens 1
    b ← token tokens 2
    c ← token tokens 3
    d ← token tokens 4
    init_controller_hear loads a b c d

  unfoldable pub parse_controller_write : String → Result ControllerWrite
  unfolding tokens_from init_controller_write
  parse_controller_write line = do
    tokens ← tokens_from sieve_after_rest_write_mark line
    a ← token tokens 1
    b ← token tokens 2
    c ← token tokens 3
    d ← token tokens 4
    e ← token tokens 5
    f ← token tokens 6
    g ← token tokens 7
    h ← token tokens 8
    init_controller_write loads a b c d e f g h

  -- `tokens = tokens[1:]` moves every index by one.
  unfoldable pub parse_controller_read : String → Result ControllerRead
  unfolding tokens_from init_controller_read
  parse_controller_read line = do
    tokens ← tokens_from sieve_after_rest_read_mark line
    etype ← token tokens 2
    if etype == "Get"
        then (do
          rtype ← token tokens 5
          namespace ← token tokens 6
          name ← token tokens 7
          fun ← token tokens 3
          error ← token tokens 4
          obj ← token tokens 8
          init_controller_read loads etype (bool false) rtype namespace name fun error obj)
        else if etype == "List"
        then (do
          rtype ← token tokens 5
          fun ← token tokens 3
          error ← token tokens 4
          obj ← token tokens 8
          init_controller_read loads etype (bool false) rtype "" "" fun error obj)
        else err assertion_error

  unfoldable pub parse_controller_cache_read : String → Result ControllerRead
  unfolding tokens_from init_controller_read
  parse_controller_cache_read line = do
    tokens ← tokens_from sieve_after_cache_read_mark line
    etype ← token tokens 1
    if etype == "Get"
        then (do
          rtype ← token tokens 2
          namespace ← token tokens 3
          name ← token tokens 4
          fun ← token tokens 5
          error ← token tokens 6
          obj ← token tokens 7
          init_controller_read loads etype (bool true) rtype namespace name fun error obj)
        else if etype == "List"
        then (do
          rtype ← token tokens 2
          fun ← token tokens 3
          error ← token tokens 4
          obj ← token tokens 5
          init_controller_read loads etype (bool true) rtype "" "" fun error obj)
        else err assertion_error

  unfoldable pub parse_api_event : String → Result ApiEvent
  unfolding tokens_from init_api_event
  parse_api_event line = do
    tokens ← tokens_from sieve_api_event_mark line
    a ← token tokens 1
    b ← token tokens 2
    c ← token tokens 3
    d ← token tokens 4
    e ← token tokens 5
    f ← token tokens 6
    init_api_event loads a b c d e f
