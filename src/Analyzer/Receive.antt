-- ===== src/Analyzer/Receive.antt =====
-- `parse_receiver_events` of sieve_analyzer/analyze.py: the hears of the server log, with the lines
-- that they start and end at. The map from ids to hears is an association list.
pub mod Timed
use sieve.Prelude.{
  ℕ, suc, ◌+◌, ◌<◌, ◌≤◌, String, ◌≡◌, refl, sym, ap, ◌∙◌, subst, Bool, true, false, Bool-cases, inl,
  inr, int_eq, List, [], ◌∷◌, Option, none, some, Result, ok, err, ◌>>=◌, ℤ, pos, All, length,
  Option-cases, arith, if◌then◌else◌, from_option, from_option-ok, key_error, >>=-eq-ok, ok_inj,
}
use sieve.Prelude.IntDict.{IntDict, lookup_int, insert_int, lookup-insert_int, int_eq_iff}
use sieve.Json.{Value}
use sieve.Event.Records.{ControllerHear}
use sieve.Event.Parse.{
  in_line, sieve_before_hear_mark, sieve_after_hear_mark, parse_controller_hear,
  parse_controller_hear_id_only,
}

abbrev pub HearMap : Type 0
HearMap = IntDict ControllerHear

module _ (loads : String → Result Value) where
  -- A hear starts at line `i`, and ends at the last line until another line says where.
  unfoldable pub before_hear : ℕ → ℕ → String → HearMap → Result HearMap
  unfolding parse_controller_hear insert_int
  before_hear largest i line m = do
    h ← parse_controller_hear loads line
    ok (insert_int h.id (record h { start_timestamp = pos i; end_timestamp = pos largest }) m)

  unfoldable pub after_hear : ℕ → String → HearMap → Result HearMap
  unfolding parse_controller_hear_id_only lookup_int insert_int
  after_hear i line m = do
    id ← parse_controller_hear_id_only line
    h ← from_option key_error (lookup_int id m)
    ok (insert_int id (record h { end_timestamp = pos i }) m)

  unfoldable pub receive_line : ℕ → ℕ → String → HearMap → Result HearMap
  unfolding in_line before_hear after_hear
  receive_line largest i line m =
      if in_line sieve_before_hear_mark line
      then before_hear largest i line m
      else if in_line sieve_after_hear_mark line
      then after_hear i line m
      else ok m

  -- The first loop.
  unfoldable pub receive_lines : ℕ → ℕ → List String → HearMap → Result HearMap
  unfolding receive_line
  receive_lines largest i [] m = ok m
  receive_lines largest i (line ∷ lines) m = do
    m' ← receive_line largest i line m
    receive_lines largest (suc i) lines m'

  -- The second loop.
  unfoldable pub collect_hears : List String → HearMap → Result (List ControllerHear)
  unfolding in_line parse_controller_hear lookup_int
  collect_hears [] m = ok []
  collect_hears (line ∷ lines) m =
      if in_line sieve_before_hear_mark line
      then (do
        parsed ← parse_controller_hear loads line
        h ← from_option key_error (lookup_int parsed.id m)
        hs ← collect_hears lines m
        ok (h ∷ hs))
      else collect_hears lines m

  unfoldable pub parse_receiver_events : List String → Result (List ControllerHear)
  unfolding receive_lines collect_hears
  parse_receiver_events lines = do
    m ← receive_lines (length lines) 0 lines []
    collect_hears lines m

  -- The hears of a log, in the order of their lines, as they are parsed.
  unfoldable pub parsed_hears : List String → Result (List ControllerHear)
  unfolding in_line parse_controller_hear
  parsed_hears [] = ok []
  parsed_hears (line ∷ lines) =
      if in_line sieve_before_hear_mark line
      then (do h ← parse_controller_hear loads line; hs ← parsed_hears lines; ok (h ∷ hs))
      else parsed_hears lines
