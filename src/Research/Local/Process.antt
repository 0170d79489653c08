-- ===== src/Research/Local/Process.antt =====
-- A job as a process of the platform (`LocalProcessProvisioner` of signal_research/provisioners.py).
use signal_lab.Common.{
  ℕ, Bool, false, Option, none, some, [], ◌∷◌, ◌++◌, if◌then◌else◌, Result, ok, err, Exec, ◌>>=◌,
}
use signal_lab.Common.Text.{Text, codes, starts_with, remove_prefix, show_ℕ}
use signal_lab.Contracts.Job.{JobSpec}
use signal_lab.Research.Models.{Runtime}
use signal_lab.Research.Repo.{get}
use signal_lab.Research.Ssh.{Fault, provision_error, Environ}
use signal_lab.Research.Remote.{nonempty}
use signal_lab.Research.Local.{Machine, spec_path, with_var, prepare}

module _ {W : Type 0} (machine : Machine W) {F : Type 0} (dump_spec : JobSpec F → Text)
    (environ : Environ) (script python runner_backend : Text) where
  -- A variable that is set, even to nothing, is passed on under both names.
  abbrev pub pass_value : Text → Text → Option Text → Environ → Environ
  pass_value var name none env = env
  pass_value var name (some value) env = with_var var value (with_var name value env)

  abbrev pub pass_ref : Text → Text → Environ → Environ
  pass_ref ref name env =
      if starts_with ref (codes "env:")
      then (let var = remove_prefix (codes "env:") ref in pass_value var name (environ var) env)
      else env

  abbrev pub process_env : JobSpec F → Text → Environ
  process_env spec root =
      let env = with_var (codes "SIGNAL_RUNNER_BACKEND") runner_backend (
        with_var (codes "SIGNAL_JOB_WORKDIR") root
          (with_var (codes "SIGNAL_JOB_SPEC") (spec_path root) environ)) in
      pass_ref spec.callback.hmac_key_ref (codes "CALLBACK_HMAC_SECRET")
        (pass_ref spec.llm.api_key_ref (codes "LLM_API_KEY") env)

  abbrev pub process_runtime : Text → ℕ → Runtime
  process_runtime root pid =
      (codes "type", codes "local_process")
      ∷ (codes "pid", show_ℕ pid)
      ∷ (codes "work_dir", root)
      ∷ (codes "log_path", root ++ codes "/runner.log")
      ∷ (codes "spec_path", spec_path root)
      ∷ []

  abbrev pub launched : Text → Result Text ℕ → Result Fault Runtime
  launched root (ok pid) = ok (process_runtime root pid)
  launched root (err e) = err (provision_error (codes "runner: " ++ e))

  unfoldable pub start : Text → JobSpec F → Option Text → Exec W Fault Runtime
  start job_id spec work_root w =
      if machine.exists script w
      then (prepare machine dump_spec job_id spec work_root >>= λ root w.
            let (r, w') =
              machine.popen (python ∷ script ∷ []) root (process_env spec root)
                (root ++ codes "/runner.log") w in
            (launched root r, w'))
          w
      else (err (provision_error (codes "no script: " ++ script)), w)

  abbrev pub signal : Option Text → ℕ → W → Bool × W
  signal none number w = (false, w)
  signal (some pid) number w = machine.kill pid number w

  -- The signal 0 only asks.
  unfoldable pub is_alive : Runtime → W → Bool × W
  unfolding get
  is_alive runtime w = signal (nonempty (get (codes "pid") runtime)) 0 w

  unfoldable pub stop : Runtime → W → W
  unfolding get
  stop runtime w = (signal (nonempty (get (codes "pid") runtime)) 15 w).1
