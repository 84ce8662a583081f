-- ===== src/Lib.antt =====
-- A model of the analysis core of Sieve, which tests Kubernetes controllers: it reads the log of a
-- run, compares the objects that the controller heard of and wrote, builds the graph of the events,
-- and generates the test plans that perturb a later run.
--
-- Parts of the program, and the files that model them:
--
--   sieve_common/event_delta.py        Delta: Diff has diff_event_as_list, diff_event_as_map and
--                                      same_key; Canonical has the masking; Part has diff_event,
--                                      part_of_event_as_list and _as_map, and
--                                      conflicting_event_payload
--   sieve_common/common.py             Common: the marks, and the patterns of match_mask_regex,
--                                      which Common/Pattern matches by derivatives
--   sieve_common/k8s_event.py          Event: HearTypes, WriteTypes, ApiTypes and Types have the
--                                      event types; Keys and Mask the functions on keys; Records
--                                      the event classes with their constructors; Parse the parse
--                                      functions; Conflicts conflicting_event and
--                                      get_event_signature
--   sieve_analyzer/event_graph.py      Graph: Types has the classes, Build the operations
--                                      that add events and edges, EventDiff compute_event_diff and
--                                      finalize, Cancel compute_event_cancel, Sanity sanity_check
--   sieve_analyzer/analyze.py          Analyzer: Receive has parse_receiver_events, Scan with Times
--                                      parse_reconciler_events; Pairs has the passes that choose
--                                      pairs of a hear and a write, and the loop that connects
--                                      them; Build has build_controller_event_graph
--   sieve_perturbation_policies/       Policy: Context has what is read of the configurations;
--                                      Detectable is common.py; Conditions has what all plans
--                                      share; Intermediate, Unobserved, and Stale with Timing are
--                                      the three policies
--   sieve_oracle/checker_common.py     Oracle: Family has generate_controller_related_list; Masks
--                                      has kind_native_objects, Trim second_pass_learn_trim, and
--                                      Driver test_run_validation
--   sieve_oracle/safety_checker.py     Oracle: History has generate_history and
--                                      generate_history_digest, Compare compare_history_digests,
--                                      Safety apply_safety_checker, Trim remove_ignored_value
--   sieve_oracle/liveness_checker.py   Oracle: State has generate_state, StateMask
--                                      generate_state_mask, Masks the tests that leave objects and
--                                      fields out, Liveness compare_states
--   sieve_oracle/oracle.py             Oracle: Driver has check and the checkers that it calls
--
-- The other files of a part hold proofs: Delta has Same, Parts, Masking with Paths, and Conflict;
-- Event has KeyLaws and Reads; Graph has Shape, WellFormed and Forward, and a Frame under
-- EventDiff; Analyzer has Connect and Edges, Timed under Receive, Invariant, Steps, Run and Order
-- under Scan, and Contents under Build; Policy has Counts, StaleCounts, Ends and Transitions;
-- Oracle has Closure, Fuel and Members under Family, Replay under State, Counts under History,
-- Silence under Compare, Paths under Masks and under StateMask, Keys under Liveness, States under
-- Safety and Verdict under Driver. Prelude has the shared types and lemmas, Json the values of
-- json.loads, and Tests the runs on small inputs. Oracle/Log reads the API events that three
-- oracles start from.
--
-- How the parts interact: the parse functions make events of log lines; the graph keeps the events
-- as vertices; the passes of the analyzer choose pairs of vertices, which become edges; the policies
-- read the vertices and edges, and the differences in the events, and return plans. The oracles read
-- the API events of a run: the digest, the end state and the controller family of a testing run are
-- compared with those of the reference run.
--
-- Correspondence. A dict is a list of fields in insertion order, a set a list. An object that is
-- changed in place is a function from the old to the new object. Python's exceptions are the errors
-- of `Result`, and `None` is `none`. Vertices are shared objects in the source: the graph keeps them
-- in one store, and lists and edges hold their gids. A generator returns the plans in their order,
-- where the source writes each into a file. Timestamps and ids are integers, with -1 for one that is
-- not set; a reconcile id of -1 is `none`.
--
-- Fuel: two loops take fuel. `stale_state_analysis` gives the walk of decide_stale_state_timing one
-- more than the number of vertices, which is enough since a walk goes from a vertex to later ones.
-- `related_uids` gives the tainting loop one more than the number of uids in the events and their
-- owner references, which is enough since a round that asks for another has added one of them.
--
-- Parameters: `loads` and `dumps` are json.loads and json.dumps, `path_match` is PurePath.match,
-- `deep_diff` is DeepDiff, `suites` are the checkers that a user adds, and `show`, `show_names` and
-- `show_index` are str on values, lists and indices. No theorem assumes anything of them.
--
-- Bounds of the model: uids and keys are texts; the objects of API events, hears and writes are
-- dicts, and another JSON value is an error when the event is built; an id has no underscore between
-- its digits; the change of a first letter to a small one, the test for digits and white space are
-- those of ASCII; JSON numbers are integers.
--
-- Not modelled: sanity_check_sieve_server_log and generate_test_plans of analyze.py,
-- event_vertices_reachable of the graph, create_differential_oracles and
-- generate_perturbation_description of the oracles; printing, files, clusters and build scripts,
-- which are I/O; the server, client and drivers in Go; and the controllers under examples.
pub mod Prelude
pub mod Json
pub mod Common
pub mod Delta
pub mod Event
pub mod Graph
pub mod Analyzer
pub mod Policy
pub mod Oracle
pub mod Tests
