-- ===== src/Policy/Context.antt =====
-- What the policies read of the test context and its configurations (`TestContext` of
-- sieve_common/common.py and the classes of sieve_common/config.py), and of the oracle's state.json.
use sieve.Prelude.{String, Bool, List}
use sieve.Json.{Fields}

pub record CommonConfig : Type 0 where
  pub leading_api : String
  pub following_api : String
  pub causality_pruning_enabled : Bool
  pub effective_updates_pruning_enabled : Bool
  pub nondeterministic_pruning_enabled : Bool
  pub persist_test_plans_enabled : Bool
  pub compress_trivial_reconcile_enabled : Bool

pub record ControllerConfig : Type 0 where
  pub controller_pod_label : String
  pub custom_resource_definitions : List String
  pub loosen_reconciler_boundary : Bool

-- `end_state` is what `json.load` reads from state.json in the oracle directory.
pub record TestContext : Type 0 where
  pub test_workload : String
  pub common_config : CommonConfig
  pub controller_config : ControllerConfig
  pub end_state : Fields
