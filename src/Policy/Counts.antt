-- ===== src/Policy/Counts.antt =====
-- The numbers that an analysis reports are those of the plans that it generates, and passes only
-- remove candidates.
use sieve.Prelude.{
  ltb, ℕ, suc, ◌+◌, ◌≤◌, String, ◌≡◌, refl, ap, Bool, true, false, List, [], ◌∷◌, ◌++◌, Option,
  Result, ok, ℤ, pos, minus_one, ◌≤ℤ◌, length, length-append, filter_result, map_result, Ensures,
  Ensures-ok, Ensures-bind, subst, ok_inj, >>=-eq-ok, arith, if◌then◌else◌,
}
use sieve.Json.{Value, Fields}
use sieve.Graph.Types.{EventVertex, EventGraph}
use sieve.Analyzer.Pairs.{vertices_of}
use sieve.Policy.Context.{TestContext}
use sieve.Policy.Intermediate.{
  Analysis, write_plan, invocation_plan, prune_writes, detect_writes,
  effective_write_filtering_pass, no_error_write_filtering_pass, intermediate_state_detectable_pass,
  intermediate_state_analysis,
}
use sieve.Policy.Unobserved.{
  hear_plan, prune_hears, detect_hears, causality_hear_filtering_pass,
  unobserved_state_detectable_pass, overwrite_filtering_pass, unobserved_state_analysis,
}

module _ {A : Type 0} (f : A → Result Bool) where
  length-if : (b : Bool) (x : A) (xs : List A) → length (if b then x ∷ xs else xs) ≤ suc (length xs)
  length-if b x xs = ground arith

  -- A pass only removes candidates.
  pub length-filter_result :
      (xs : List A) → Ensures (λ ys. length ys ≤ length xs) (filter_result f xs)
  unfolding filter_result
  length-filter_result [] = omega arith
  length-filter_result (x ∷ xs) = Ensures-bind _ (f x) _ λ b e.
      Ensures-bind _ (filter_result f xs) _ λ ys h.
        let k = Ensures-ok (λ ys. length ys ≤ length xs) _ (length-filter_result xs) h in
        omega (arith, length-if b x ys)

length-map_result :
    {A B : Type 0} (f : A → Result B) (xs : List A)
    → Ensures (λ ys. length ys ≡ length xs) (map_result f xs)
unfolding map_result
length-map_result f [] = refl
length-map_result f (x ∷ xs) = Ensures-bind _ (f x) _ λ y e.
    Ensures-bind _ (map_result f xs) _
      λ ys h. ap suc (Ensures-ok (λ ys. length ys ≡ length xs) _ (length-map_result f xs) h)

-- The number after the second pass, by whether the pass is on.
abbrev pub PassCounts : Bool → Analysis → Type 0
PassCounts true a =
    (a.final_spec_number ≤ℤ a.after_p2_spec_number)
    × (a.after_p2_spec_number ≤ℤ a.baseline_spec_number)
PassCounts false a = a.after_p2_spec_number ≡ minus_one

-- What the numbers of an analysis say: `second` is whether the second pass was on.
pub record IsCounted (second : Bool) (a : Analysis) : Type 0 where
  pub planned : a.final_spec_number ≡ pos (length a.plans)
  pub below : a.final_spec_number ≤ℤ a.baseline_spec_number
  pub second_pass : PassCounts second a

pass_counts :
    (on : Bool) (a : Analysis)
    → (on ≡ true → PassCounts true a)
    → (on ≡ false → PassCounts false a)
    → PassCounts on a
pass_counts true a h k = h refl
pass_counts false a h k = k refl

-- What a pass that may be off does to `n` candidates, of which `others` are not in the list.
pub record IsPruned (on : Bool) (n others : ℕ) (kept : ℕ) (number : ℤ) : Type 0 where
  pub fewer : kept ≤ n
  pub counted : on ≡ true → number ≡ pos (kept + others)
  pub uncounted : on ≡ false → number ≡ minus_one

prune_writes-IsPruned :
    (on : Bool) (ws : List EventVertex) (others : ℕ)
    → Ensures
        (λ (r : List EventVertex × ℤ). IsPruned on (length ws) others (length r.0) r.1)
        (prune_writes on ws others)
unfolding effective_write_filtering_pass no_error_write_filtering_pass
prune_writes-IsPruned false ws others = record {
  fewer = omega arith;
  counted = λ h. cc;
  uncounted = λ h. refl;
}
prune_writes-IsPruned true ws others = Ensures-bind _ (effective_write_filtering_pass ws) _ λ xs e.
    Ensures-bind _ (no_error_write_filtering_pass xs) _ λ ys f.
      let k = Ensures-ok (λ ys. length ys ≤ length ws) _ (length-filter_result _ ws) e in
      let l = Ensures-ok (λ ys. length ys ≤ length xs) _ (length-filter_result _ xs) f in
      record { fewer = omega arith; counted = λ h. refl; uncounted = λ h. cc }

detect_writes-length :
    (on : Bool) (ctx : TestContext) (ws : List EventVertex)
    → Ensures (λ ys. length ys ≤ length ws) (detect_writes on ctx ws)
unfolding intermediate_state_detectable_pass
detect_writes-length false ctx ws = omega arith
detect_writes-length true ctx ws = length-filter_result _ ws

intermediate_counts :
    (on : Bool) (plans ns : List Value) (total kept pruned others : ℕ) (p2 : ℤ)
    → IsPruned on total others pruned p2
    → kept ≤ pruned
    → length plans ≡ kept
    → length ns ≡ others
    → IsCounted on record {
      plans = plans ++ ns;
      baseline_spec_number = pos (total + others);
      after_p1_spec_number = pos (total + others);
      after_p2_spec_number = p2;
      final_spec_number = pos (kept + others);
    }
intermediate_counts on plans ns total kept pruned others p2 p k e f = record {
  planned = ap pos (omega (arith, length-append plans ns));
  below = omega (arith, p.fewer);
  second_pass =
      pass_counts on _ (λ h. rw (p.counted h) (omega (arith, p.fewer), omega (arith, p.fewer)))
        p.uncounted;
}

-- An intermediate-state analysis that returns reports as its final number that of the plans it has
-- generated, and passes only remove candidates: the final number is at most the one after the
-- pass over effective writes, if that pass is on, and this at most the baseline; if the pass is off
-- its number is -1.
pub intermediate_state_analysis-IsCounted :
    (dumps : Option Fields → String) (g : EventGraph) (ctx : TestContext) (a : Analysis)
    → intermediate_state_analysis dumps g ctx ≡ ok a
    → IsCounted ctx.common_config.effective_updates_pruning_enabled a
unfolding intermediate_state_analysis
intermediate_state_analysis-IsCounted dumps g ctx a h =
    let on = ctx.common_config.effective_updates_pruning_enabled in
    let detect = ctx.common_config.nondeterministic_pruning_enabled in
    let (ws, _, h₁) = >>=-eq-ok (vertices_of g g.controller_write_vertices) _ h in
    let (ns, _, h₂) = >>=-eq-ok (vertices_of g g.controller_non_k8s_write_vertices) _ h₁ in
    let (pruned, e₁, h₃) = >>=-eq-ok (prune_writes on ws (length ns)) _ h₂ in
    let (kept, e₂, h₄) = >>=-eq-ok (detect_writes detect ctx pruned.0) _ h₃ in
    let (plans, e₃, h₅) = >>=-eq-ok (map_result (λ v. write_plan dumps ctx v.content) kept) _ h₄ in
    let (more, e₄, h₆) = >>=-eq-ok (map_result (λ v. invocation_plan ctx v.content) ns) _ h₅ in
    let pruned_ok =
      Ensures-ok
        (λ (r : List EventVertex × ℤ). IsPruned on (length ws) (length ns) (length r.0) r.1) _
        (prune_writes-IsPruned on ws (length ns)) e₁ in
    let kept_ok =
      Ensures-ok (λ ys. length ys ≤ length pruned.0) _ (detect_writes-length detect ctx pruned.0)
        e₂ in
    let plans_ok = Ensures-ok (λ ys. length ys ≡ length kept) _ (length-map_result _ kept) e₃ in
    let more_ok = Ensures-ok (λ ys. length ys ≡ length ns) _ (length-map_result _ ns) e₄ in
    subst (IsCounted on) (ok_inj h₆) (
      intermediate_counts on plans more (length ws) (length kept) (length pruned.0) (length ns)
        pruned.1 pruned_ok kept_ok plans_ok more_ok)

caused-length :
    (hs : List EventVertex)
    → Ensures (λ ys. length ys ≤ length hs) (causality_hear_filtering_pass hs)
unfolding causality_hear_filtering_pass
caused-length hs = length-filter_result (λ v. ok (ltb 0 (length v.out_inter_reconciler_edges))) hs

prune_hears-IsPruned :
    (on : Bool) (hs : List EventVertex)
    → Ensures
        (λ (r : List EventVertex × ℤ). IsPruned on (length hs) 0 (length r.0) r.1)
        (prune_hears on hs)
prune_hears-IsPruned false hs = record {
  fewer = omega arith;
  counted = λ h. cc;
  uncounted = λ h. refl;
}
prune_hears-IsPruned true hs = Ensures-bind _ (causality_hear_filtering_pass hs) _ λ xs e.
    let k = Ensures-ok (λ ys. length ys ≤ length hs) _ (caused-length hs) e in
    record { fewer = omega arith; counted = λ h. ap pos (omega arith); uncounted = λ h. cc }

detect_hears-length :
    (on : Bool) (ctx : TestContext) (hs : List EventVertex)
    → Ensures (λ ys. length ys ≤ length hs) (detect_hears on ctx hs)
unfolding unobserved_state_detectable_pass
detect_hears-length false ctx hs = omega arith
detect_hears-length true ctx hs = length-filter_result _ hs

unobserved_counts :
    (on : Bool) (plans : List Value) (total kept pruned : ℕ) (p2 : ℤ)
    → IsPruned on total 0 pruned p2
    → kept ≤ pruned
    → length plans ≡ kept
    → IsCounted on record {
      plans = plans;
      baseline_spec_number = pos total;
      after_p1_spec_number = p2;
      after_p2_spec_number = p2;
      final_spec_number = pos kept;
    }
unobserved_counts on plans total kept pruned p2 p k e = record {
  planned = ap pos (omega arith);
  below = omega (arith, p.fewer);
  second_pass =
      pass_counts on _ (λ h. rw (p.counted h) (omega (arith, p.fewer), omega (arith, p.fewer)))
        p.uncounted;
}

-- An unobserved-state analysis that returns reports as its final number that of the plans it has
-- generated, and passes only remove candidates: the final number is at most the one after the
-- causality pass, if that pass is on, and this at most the baseline; if the pass is off its number
-- is -1.
pub unobserved_state_analysis-IsCounted :
    (dumps : Option Fields → String) (g : EventGraph) (ctx : TestContext) (a : Analysis)
    → unobserved_state_analysis dumps g ctx ≡ ok a
    → IsCounted ctx.common_config.causality_pruning_enabled a
unfolding unobserved_state_analysis
unobserved_state_analysis-IsCounted dumps g ctx a h =
    let on = ctx.common_config.causality_pruning_enabled in
    let detect = ctx.common_config.nondeterministic_pruning_enabled in
    let (all, _, h₁) = >>=-eq-ok (vertices_of g g.controller_hear_vertices) _ h in
    let (hs, _, h₂) = >>=-eq-ok (overwrite_filtering_pass all) _ h₁ in
    let (pruned, e₁, h₃) = >>=-eq-ok (prune_hears on hs) _ h₂ in
    let (kept, e₂, h₄) = >>=-eq-ok (detect_hears detect ctx pruned.0) _ h₃ in
    let (plans, e₃, h₅) = >>=-eq-ok (map_result (λ v. hear_plan dumps ctx v.content) kept) _ h₄ in
    let pruned_ok =
      Ensures-ok (λ (r : List EventVertex × ℤ). IsPruned on (length hs) 0 (length r.0) r.1) _
        (prune_hears-IsPruned on hs) e₁ in
    let kept_ok =
      Ensures-ok (λ ys. length ys ≤ length pruned.0) _ (detect_hears-length detect ctx pruned.0)
        e₂ in
    let plans_ok = Ensures-ok (λ ys. length ys ≡ length kept) _ (length-map_result _ kept) e₃ in
    subst (IsCounted on) (ok_inj h₅) (
      unobserved_counts on plans (length hs) (length kept) (length pruned.0) pruned.1 pruned_ok
        kept_ok plans_ok)
