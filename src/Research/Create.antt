-- ===== src/Research/Create.antt =====
-- packages/research/src/signal_research/service.py: `create_job`.
use signal_lab.Common.{ℕ, ◌||◌, Option, none, some, [], ◌++◌, if◌then◌else◌, Result, ok, err, Exec}
use signal_lab.Common.Int.{ℤ, pos, eqb_ℤ}
use signal_lab.Common.Text.{Text, codes, text_eq, strip, lower, before, show_ℕ, rstrip_char}
use signal_lab.Common.Float.{Floats}
use signal_lab.Contracts.Job.{
  local_docker, remote_ssh, RunnerTarget, make_target, LlmConfig, make_llm, Budget, make_budget,
  CallbackConfig, make_callback, http_put, JobSpec,
}
use signal_lab.Research.Models.{draft, ResearchJob}
use signal_lab.Research.Ports.{ResearchSettings}
use signal_lab.Research.Session.{
  Error, bad_producer, bad_target, bad_llm, bad_budget, bad_callback, Session, add,
}

-- `_normalize_producer`; `none` is its ValueError.
unfoldable pub normalize_producer : Text → Option Text
normalize_producer producer =
    let base = before b'@' (lower (strip producer)) in
    if text_eq base (codes "alphaagent") || text_eq base (codes "rdagent") then some base else none

-- What the caller of `create_job` chooses.
pub record JobRequest : Type 0 where
  pub producer : Text
  pub scenario : Text
  pub data_snapshot : Text
  pub max_loops : Option ℤ
  pub runner_type : Text
  pub ssh_host : Option Text
  pub ssh_user : Option Text
  pub ssh_key_ref : Option Text

abbrev pub target_of : JobRequest → RunnerTarget
target_of r =
    if text_eq r.runner_type (codes "remote_ssh")
    then record {
      type = remote_ssh;
      host = r.ssh_host;
      user = r.ssh_user;
      ssh_key_ref = r.ssh_key_ref;
    }
    else record { type = local_docker; host = none; user = none; ssh_key_ref = none }

-- `max_loops or default`
abbrev loops_or : ℤ → Option ℤ → ℤ
loops_or d none = d
loops_or d (some n) = if eqb_ℤ n (pos 0) then d else n

abbrev env_ref : Text → Text
env_ref variable = codes "env:" ++ variable

module _ {F : Type 0} ⦃fl : Floats F⦄ where
  -- `{host}/api/research/jobs/{job_id}`. A uuid is printed as its number is.
  abbrev job_url : ResearchSettings F → ℕ → Text
  job_url st id = rstrip_char b'/' st.callback_base_host ++ codes "/api/research/jobs/" ++ show_ℕ id

  -- The specification of the validated parts; the first that is refused is what raises.
  unfoldable pub assemble :
      ResearchSettings F
      → ℕ
      → JobRequest
      → Option Text
      → Option RunnerTarget
      → Option LlmConfig
      → Option (Budget F)
      → Option CallbackConfig
      → Result Error (JobSpec F)
  assemble st id r none _ _ _ _ = err bad_producer
  assemble st id r (some producer) none _ _ _ = err bad_target
  assemble st id r (some producer) (some target) none _ _ = err bad_llm
  assemble st id r (some producer) (some target) (some llm) none _ = err bad_budget
  assemble st id r (some producer) (some target) (some llm) (some budget) none = err bad_callback
  assemble st id r (some producer) (some target) (some llm) (some budget) (some callback) =
      ok (record {
        job_id = id;
        producer = producer;
        scenario = r.scenario;
        runner_target = target;
        llm = llm;
        budget = budget;
        data_snapshot = r.data_snapshot;
        callback = callback;
        artifact_upload = record { type = http_put; url = job_url st id ++ codes "/artifact" };
      })

  -- `ResearchJobSpec(...)` of a request.
  unfoldable pub build_spec : ResearchSettings F → ℕ → JobRequest → Result Error (JobSpec F)
  unfolding assemble
  build_spec st id r =
      assemble st id r (normalize_producer r.producer) (make_target (target_of r))
        (make_llm (record {
          provider = st.llm_provider;
          model = st.llm_model;
          base_url = some st.llm_base_url;
          api_key_ref = env_ref st.llm_api_key_env;
        }))
        (make_budget (record {
          max_loops = loops_or st.default_max_loops r.max_loops;
          max_hours = st.default_max_hours;
          max_llm_cost_usd = st.default_max_llm_cost_usd;
        }))
        (make_callback
          (record { base_url = job_url st id; hmac_key_ref = env_ref st.hmac_secret_env }))

  abbrev pub new_job : ℕ → JobSpec F → ResearchJob F
  new_job now spec = record {
    id = spec.job_id;
    status = draft;
    producer = spec.producer;
    scenario = spec.scenario;
    data_snapshot = spec.data_snapshot;
    spec = spec;
    runtime = [];
    last_heartbeat_at = none;
    last_loop = pos 0;
    best_ic = none;
    llm_cost_usd = fl.lit 0 0;
    error = [];
    strategy_id = none;
    created_at = now;
    updated_at = now;
    finished_at = none;
  }

module _ {F E : Type 0} where
  unfoldable pub create_job :
      ⦃fl : Floats F⦄
      → ResearchSettings F
      → ℕ
      → ℕ
      → JobRequest
      → Exec (Session F E) Error (ResearchJob F)
  create_job st now id r s = elim (build_spec st id r) [
    | err e ↦ (err e, s)
    | ok spec ↦ (ok (new_job now spec), add (new_job now spec) s)
  ]
