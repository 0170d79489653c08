-- ===== src/Research/Specs.antt =====
-- What the specification of a new job holds (signal_research/service.py, `create_job`).
use signal_lab.Common.{
  ℕ, ◌≡◌, ◌⊎◌, refl, sym, ◌∙◌, true, inl, inr, Option, none, some, Bool-cases, arith, Result, ok,
}
use mathlib.Core.Path.{subst}
use signal_lab.Common.Int.{pos, ◌≤ℤ◌}
use signal_lab.Common.Text.{Text, codes, text_eq, text_eq_iff, before, lower, strip}
use signal_lab.Common.Float.{Floats}
use signal_lab.Contracts.Job.{
  is_key_ref, RunnerTarget, make_target, key_ref_or_none, remote_is_complete, LlmConfig, make_llm,
  Budget, make_budget, within, CallbackConfig, make_callback, JobSpec,
}
use signal_lab.Research.Ports.{ResearchSettings}
use signal_lab.Research.Session.{Error}
use signal_lab.Research.Create.{JobRequest, normalize_producer, target_of, assemble, build_spec}

ok_inj : {A : Type 0} {a b : A} → ◌≡◌ {A = Result Error A} (ok a) (ok b) → a ≡ b
ok_inj e = cc

-- A secret is named by a variable of the environment.
pub record IsSpec {F : Type 0} ⦃fl : Floats F⦄ (id : ℕ) (spec : JobSpec F) : Type 0 where
  pub same_id : spec.job_id ≡ id
  pub producer : (spec.producer ≡ codes "alphaagent") ⊎ (spec.producer ≡ codes "rdagent")
  pub api_key : is_key_ref spec.llm.api_key_ref ≡ true
  pub hmac_key : is_key_ref spec.callback.hmac_key_ref ≡ true
  pub ssh_key : key_ref_or_none spec.runner_target.ssh_key_ref ≡ true
  pub target : remote_is_complete spec.runner_target ≡ true
  pub some_loop : pos 1 ≤ℤ spec.budget.max_loops
  pub few_loops : spec.budget.max_loops ≤ℤ pos 200
  pub hours : within 72 spec.budget.max_hours ≡ true
  pub cost : within 200 spec.budget.max_llm_cost_usd ≡ true

normalize_producer-some :
    (t p : Text) → normalize_producer t ≡ some p → (p ≡ codes "alphaagent") ⊎ (p ≡ codes "rdagent")
unfolding normalize_producer
normalize_producer-some t p e =
    let base = before b'@' (lower (strip t)) in
    elim (Bool-cases (text_eq base (codes "alphaagent"))) [
      | inl alpha ↦
          let same : base ≡ codes "alphaagent" = (text_eq_iff base (codes "alphaagent")).0 alpha in
          let own : base ≡ p = ground arith in inl (sym own ∙ same)
      | inr other ↦
          let rd : text_eq base (codes "rdagent") ≡ true = ground arith in
          let same : base ≡ codes "rdagent" = (text_eq_iff base (codes "rdagent")).0 rd in
          let own : base ≡ p = ground arith in inr (sym own ∙ same)
    ]

make_target-some :
    (t u : RunnerTarget)
    → make_target t ≡ some u
    → (key_ref_or_none u.ssh_key_ref ≡ true) × (remote_is_complete u ≡ true)
unfolding make_target
make_target-some t u e =
    let same : t ≡ u = ground arith in
    subst (λ x. (key_ref_or_none x.ssh_key_ref ≡ true) × (remote_is_complete x ≡ true)) same
      (ground arith, ground arith)

make_llm-some : (c u : LlmConfig) → make_llm c ≡ some u → is_key_ref u.api_key_ref ≡ true
unfolding make_llm
make_llm-some c u e = ground arith

make_callback-some :
    (c u : CallbackConfig) → make_callback c ≡ some u → is_key_ref u.hmac_key_ref ≡ true
unfolding make_callback
make_callback-some c u e = ground arith

module _ {F : Type 0} ⦃fl : Floats F⦄ where
  make_budget-some :
      (c u : Budget F)
      → make_budget c ≡ some u
      → (pos 1 ≤ℤ u.max_loops)
        × (u.max_loops ≤ℤ pos 200)
        × (within 72 u.max_hours ≡ true)
        × (within 200 u.max_llm_cost_usd ≡ true)
  unfolding make_budget
  make_budget-some c u e = (ground arith, ground arith, ground arith, ground arith)

  assemble-IsSpec :
      (st : ResearchSettings F) (id : ℕ) (r : JobRequest) (p : Option Text)
      (t : Option RunnerTarget) (l : Option LlmConfig) (b : Option (Budget F))
      (c : Option CallbackConfig) (spec : JobSpec F)
      → ((u : Text) → p ≡ some u → (u ≡ codes "alphaagent") ⊎ (u ≡ codes "rdagent"))
      → ((u : RunnerTarget)
          → t ≡ some u
          → (key_ref_or_none u.ssh_key_ref ≡ true) × (remote_is_complete u ≡ true))
      → ((u : LlmConfig) → l ≡ some u → is_key_ref u.api_key_ref ≡ true)
      → ((u : Budget F)
          → b ≡ some u
          → (pos 1 ≤ℤ u.max_loops)
            × (u.max_loops ≤ℤ pos 200)
            × (within 72 u.max_hours ≡ true)
            × (within 200 u.max_llm_cost_usd ≡ true))
      → ((u : CallbackConfig) → c ≡ some u → is_key_ref u.hmac_key_ref ≡ true)
      → assemble st id r p t l b c ≡ ok spec
      → IsSpec id spec
  unfolding assemble
  assemble-IsSpec st id r none t l b c spec hp ht hl hb hc e = absurd (cc)
  assemble-IsSpec st id r (some p) none l b c spec hp ht hl hb hc e = absurd (cc)
  assemble-IsSpec st id r (some p) (some t) none b c spec hp ht hl hb hc e = absurd (cc)
  assemble-IsSpec st id r (some p) (some t) (some l) none c spec hp ht hl hb hc e = absurd (cc)
  assemble-IsSpec st id r (some p) (some t) (some l) (some b) none spec hp ht hl hb hc e =
      absurd (cc)
  assemble-IsSpec st id r (some p) (some t) (some l) (some b) (some c) spec hp ht hl hb hc e =
      let budget = hb b refl in
      subst (IsSpec id) (ok_inj e) (record {
        same_id = refl;
        producer = hp p refl;
        api_key = hl l refl;
        hmac_key = hc c refl;
        ssh_key = (ht t refl).0;
        target = (ht t refl).1;
        some_loop = budget.0;
        few_loops = budget.1;
        hours = budget.2;
        cost = budget.3;
      })

  -- A request that is accepted gives a specification with the id of the job, one of the known
  -- producers, a budget within the limits, a host and a user if it is remote, and every
  -- secret as the name of a variable of the environment.
  pub build_spec-IsSpec :
      (st : ResearchSettings F) (id : ℕ) (r : JobRequest) (spec : JobSpec F)
      → build_spec st id r ≡ ok spec
      → IsSpec id spec
  unfolding build_spec
  build_spec-IsSpec st id r spec e =
      assemble-IsSpec st id r _ _ _ _ _ spec (normalize_producer-some r.producer)
        (make_target-some (target_of r)) (make_llm-some _) (make_budget-some _)
        (make_callback-some _) e
