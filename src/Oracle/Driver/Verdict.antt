-- ===== src/Oracle/Driver/Verdict.antt =====
-- What a verdict of `check` without errors says of the oracles.
use sieve.Prelude.{
  ℕ, String, ◌≡◌, ap, ◌∙◌, Bool, true, false, ◌&&◌, not, List, [], ◌∷◌, Option, ok, All,
  append_empty, >>=-eq-ok, ok_inj,
}
use sieve.Json.{Value, Fields}
use sieve.Oracle.Compare.{compare_history_digests}
use sieve.Oracle.Safety.{apply_safety_checker}
use sieve.Oracle.Liveness.{Delta, compare_states}
use sieve.Oracle.Driver.{
  RunFiles, CheckContext, SafetyCheckerSuite, TestResult, is_paused_before_read, suite_messages,
  summary_messages, safety_checker, liveness_checker, check_run,
}

module _ (path_match : String → String → Bool) (show : Value → String)
    (show_option : Option Value → String) (show_names : List String → String)
    (show_index : ℕ → String) (deep_diff : Fields → Fields → List Delta)
    (suites : List SafetyCheckerSuite) (c : CheckContext) (files : RunFiles) where
  -- No customized checker raises an alarm.
  abbrev pub QuietSuites : List SafetyCheckerSuite → Type 0
  QuietSuites = All (λ suite.
      apply_safety_checker show_index suite.checker_function suite.checker_name suite.resource_keys
        files.history
      ≡ [])

  suite_messages-QuietSuites :
      (rest : List SafetyCheckerSuite)
      → suite_messages path_match show show_option show_names show_index deep_diff suites c files
          rest
        ≡ []
      → QuietSuites rest
  unfolding suite_messages
  suite_messages-QuietSuites [] e = tt
  suite_messages-QuietSuites (suite ∷ rest) e =
      let (first, later) =
        append_empty
          (apply_safety_checker show_index suite.checker_function suite.checker_name
            suite.resource_keys files.history)
          (suite_messages path_match show show_option show_names show_index deep_diff suites c files
            rest)
          e in
      (first, suite_messages-QuietSuites rest later)

  -- If `check` returns a result without history errors and without end-state errors, its checks of state
  -- updates and of the end state are enabled, the plan does not start by pausing the controller before
  -- a read, and the reference run uses no other storage driver than the testing run, then no customized
  -- checker raises an alarm, and the comparisons of the digests and of the states return no message.
  pub check_run-QuietSuites :
      (result : TestResult)
      → check_run path_match show show_option show_names show_index deep_diff suites c files
        ≡ ok result
      → result.history_errors ≡ []
      → result.end_state_errors ≡ []
      → c.state_update_summary_check_enabled ≡ true
      → is_paused_before_read c.actions ≡ ok false
      → c.end_state_check_enabled ≡ true
      → (c.use_csi_driver_for_ref && not c.use_csi_driver) ≡ false
      → QuietSuites suites
        × (compare_history_digests show path_match c.history_context files.canonicalized_digest
              files.testing_digest c.state_context.current_controller_family
            ≡ ok [])
        × (compare_states path_match show_option show_names show_index c.state_context deep_diff
              files.canonicalized_state files.testing_state
            ≡ ok [])
  unfolding check_run safety_checker summary_messages liveness_checker
  check_run-QuietSuites result e safe live enabled paused enabled' storage =
      let (history, p, e₁) =
        >>=-eq-ok
          (safety_checker path_match show show_option show_names show_index deep_diff suites c
            files)
          _ e in
      let (ended, q, e₂) =
        >>=-eq-ok
          (liveness_checker path_match show show_option show_names show_index deep_diff suites c
            files)
          _ e₁ in
      let history_empty : history ≡ [] = ap (λ r. r.history_errors) (ok_inj e₂) ∙ safe in
      let ended_empty : ended ≡ [] = ap (λ r. r.end_state_errors) (ok_inj e₂) ∙ live in
      let (messages, p₁, p₂) =
        >>=-eq-ok
          (summary_messages path_match show show_option show_names show_index deep_diff suites c
            files)
          _ p in
      let (messages_empty, suites_empty) =
        append_empty messages
          (suite_messages path_match show show_option show_names show_index deep_diff suites c files
            suites)
          (ok_inj p₂ ∙ history_empty) in
      (
        suite_messages-QuietSuites suites suites_empty,
        rw (enabled, paused) at (p₁ ∙ ap ok messages_empty),
        rw (enabled', storage) at (q ∙ ap ok ended_empty),
      )
