-- ===== src/Policy/StaleCounts.antt =====
-- The numbers that a stale-state analysis reports are those of the plans that it generates, also
-- where a pair is given two plans.
use sieve.Prelude.{
  ℕ, suc, ◌+◌, ◌≤◌, String, ◌==◌, ◌≡◌, refl, ap, ◌∙◌, subst, Bool, true, false, List, [], ◌∷◌,
  Option, ok, ℤ, pos, ◌≤ℤ◌, length, length-append, Ensures, Ensures-ok, Ensures-bind, >>=-eq-ok,
  ok_inj, arith, if◌then◌else◌,
}
use sieve.Json.{Value, Fields}
use sieve.Event.Records.{ControllerHear, ControllerWrite}
use sieve.Graph.Types.{EventGraph}
use sieve.Analyzer.Pairs.{Pair}
use sieve.Policy.Context.{TestContext}
use sieve.Policy.Intermediate.{Analysis, as_write}
use sieve.Policy.Counts.{length-filter_result}
use sieve.Policy.Stale.{
  bump, bump_all, add_plans, plan_pair, plan_pairs, prune_causality, prune_reversed, detect_pairs,
  stale_state_analysis, expect_hear, timing_result, generate_stale_state_test_plan,
  get_stale_state_baseline, event_vertices_connected, causality_pair_filtering_pass,
  reversed_effect_filtering_pass, stale_state_detectable_pass, reversed_effect,
}
use sieve.Policy.Timing.{decide_stale_state_timing}

-- The numbers while `left` pairs have no plan yet.
pub record IsReported (left : ℕ) (a : Analysis) : Type 0 where
  pub total : ℕ
  pub baseline : a.baseline_spec_number ≡ pos total
  pub planned : a.final_spec_number ≡ pos (length a.plans + left)
  pub below : length a.plans + left ≤ total

one_plan :
    (p : Value) (left : ℕ) (a : Analysis)
    → IsReported (suc left) a
    → IsReported left (add_plans (p ∷ []) a)
one_plan p left a r = record {
  total = r.total;
  baseline = r.baseline;
  planned = r.planned ∙ ap pos (omega (arith, length-append a.plans (p ∷ [])));
  below = omega (arith, r.below, length-append a.plans (p ∷ []));
}

two_plans :
    (p q : Value) (left : ℕ) (a : Analysis)
    → IsReported (suc left) a
    → IsReported left (bump_all (add_plans (p ∷ q ∷ []) a))
two_plans p q left a r = record {
  total = r.total + 1;
  baseline = ap bump r.baseline;
  planned = ap bump r.planned ∙ ap pos (omega (arith, length-append a.plans (p ∷ q ∷ [])));
  below = omega (arith, r.below, length-append a.plans (p ∷ q ∷ []));
}

either_plan :
    (after before : Bool) (left : ℕ) {a b : Analysis}
    → IsReported left a
    → IsReported left b
    → IsReported left (if after then a else if before then a else b)
either_plan true before left r s = r
either_plan false true left r s = r
either_plan false false left r s = s

module _ (fuel : ℕ) (dumps : Option Fields → String) (g : EventGraph) (ctx : TestContext) where
  plan_pair-IsReported :
      (h : ControllerHear) (w : ControllerWrite) (timing : String) (left : ℕ) (a : Analysis)
      → IsReported (suc left) a
      → IsReported left (plan_pair dumps ctx h w timing a)
  plan_pair-IsReported h w timing left a r =
      either_plan (timing == "after") (timing == "before") left
        (one_plan (generate_stale_state_test_plan dumps ctx h w timing) left a r)
        (two_plans (generate_stale_state_test_plan dumps ctx h w "after")
          (generate_stale_state_test_plan dumps ctx h w "before") left a r)

  plan_pairs-IsReported :
      (ps : List Pair) (a b : Analysis)
      → plan_pairs fuel dumps g ctx ps a ≡ ok b
      → IsReported (length ps) a
      → IsReported 0 b
  unfolding plan_pairs
  plan_pairs-IsReported [] a b e r = subst (IsReported 0) (ok_inj e) r
  plan_pairs-IsReported ((hv, wv) ∷ ps) a b e r =
      let (h, _, e₁) = >>=-eq-ok (expect_hear hv.content) _ e in
      let (w, _, e₂) = >>=-eq-ok (as_write wv.content) _ e₁ in
      let (timing, _, e₃) =
        >>=-eq-ok (timing_result (decide_stale_state_timing fuel g hv wv)) _ e₂ in
      plan_pairs-IsReported ps (plan_pair dumps ctx h w timing a) b e₃
        (plan_pair-IsReported h w timing (length ps) a r)

caused-length :
    (ps : List Pair) → Ensures (λ ys. length ys ≤ length ps) (causality_pair_filtering_pass ps)
unfolding causality_pair_filtering_pass
caused-length ps = length-filter_result (λ p. ok (event_vertices_connected p.0 p.1)) ps

reversed-length :
    (g : EventGraph) (ps : List Pair)
    → Ensures (λ ys. length ys ≤ length ps) (reversed_effect_filtering_pass g ps)
unfolding reversed_effect_filtering_pass
reversed-length g ps = length-filter_result (reversed_effect g) ps

prune_causality-length :
    (on : Bool) (ps : List Pair)
    → Ensures (λ (r : List Pair × ℤ). length r.0 ≤ length ps) (prune_causality on ps)
prune_causality-length false ps = omega arith
prune_causality-length true ps =
    Ensures-bind _ (causality_pair_filtering_pass ps) _
      λ xs e. Ensures-ok (λ ys. length ys ≤ length ps) _ (caused-length ps) e

prune_reversed-length :
    (on : Bool) (g : EventGraph) (ps : List Pair)
    → Ensures (λ (r : List Pair × ℤ). length r.0 ≤ length ps) (prune_reversed on g ps)
prune_reversed-length false g ps = omega arith
prune_reversed-length true g ps =
    Ensures-bind _ (reversed_effect_filtering_pass g ps) _
      λ xs e. Ensures-ok (λ ys. length ys ≤ length ps) _ (reversed-length g ps) e

detect_pairs-length :
    (on : Bool) (ctx : TestContext) (ps : List Pair)
    → Ensures (λ ys. length ys ≤ length ps) (detect_pairs on ctx ps)
unfolding stale_state_detectable_pass
detect_pairs-length false ctx ps = omega arith
detect_pairs-length true ctx ps = length-filter_result _ ps

-- A stale-state analysis that returns reports as its final number that of the plans it has
-- generated, and this is at most its baseline, also where pairs are given two plans.
pub stale_state_analysis-IsReported :
    (dumps : Option Fields → String) (g : EventGraph) (ctx : TestContext) (a : Analysis)
    → stale_state_analysis dumps g ctx ≡ ok a
    → (a.final_spec_number ≡ pos (length a.plans)) × (a.final_spec_number ≤ℤ a.baseline_spec_number)
unfolding stale_state_analysis
stale_state_analysis-IsReported dumps g ctx a h =
    let cfg = ctx.common_config in
    let (ps, _, h₁) = >>=-eq-ok (get_stale_state_baseline g) _ h in
    let (caused, e₁, h₂) = >>=-eq-ok (prune_causality cfg.causality_pruning_enabled ps) _ h₁ in
    let (reversed, e₂, h₃) =
      >>=-eq-ok (prune_reversed cfg.effective_updates_pruning_enabled g caused.0) _ h₂ in
    let (kept, e₃, h₄) =
      >>=-eq-ok (detect_pairs cfg.nondeterministic_pruning_enabled ctx reversed.0) _ h₃ in
    let k₁ =
      Ensures-ok (λ (r : List Pair × ℤ). length r.0 ≤ length ps) _
        (prune_causality-length cfg.causality_pruning_enabled ps) e₁ in
    let k₂ =
      Ensures-ok (λ (r : List Pair × ℤ). length r.0 ≤ length caused.0) _
        (prune_reversed-length cfg.effective_updates_pruning_enabled g caused.0) e₂ in
    let k₃ =
      Ensures-ok (λ ys. length ys ≤ length reversed.0) _
        (detect_pairs-length cfg.nondeterministic_pruning_enabled ctx reversed.0) e₃ in
    let r : IsReported 0 a =
      plan_pairs-IsReported (length g.vertices + 1) dumps g ctx kept _ a h₄ record {
        total = length ps;
        baseline = refl;
        planned = ap pos (omega arith);
        below = omega arith;
      } in
    (r.planned ∙ ap pos (omega arith), rw r.planned (rw r.baseline (omega (arith, r.below))))
