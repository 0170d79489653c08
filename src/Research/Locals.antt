-- ===== src/Research/Locals.antt =====
-- Jobs on the platform itself, where everything that is asked of it goes well.
use signal_lab.Common.{
  ℕ, ◌+◌, ◌≡◌, refl, Bool, true, false, Option, none, some, List, [], ◌∷◌, Result, ok, err,
}
use signal_lab.Common.Text.{Text, codes}
use signal_lab.Research.Models.{Runtime}
use signal_lab.Research.Ssh.{Fault}
use signal_lab.Research.Local.{Machine}
use signal_lab.Research.Local.Process
use signal_lab.Research.Local.Docker
use signal_lab.Research.Tests.{spec}
use signal_lab.Research.Remotes.{all_set, dump_spec, job_id}

-- The world counts what was asked for; a process has the number of it.
abbrev machine : Machine ℕ
machine = record {
  exists = λ path w. true;
  which = λ command w. true;
  mkdtemp = λ prefix w. (ok (codes "/tmp/work"), w + 1);
  mkdir = λ path w. (ok tt, w + 1);
  write_text = λ path content w. (ok tt, w + 1);
  popen = λ command directory env log w. (ok w, w + 1);
  kill = λ pid number w. (true, w + 1);
  check_output = λ command w. (ok (codes "true\n"), w + 1);
  run = λ command w. (ok tt, w + 1);
}

abbrev runs_process : Result Fault Runtime × ℕ
runs_process =
    Process.start machine dump_spec (all_set (codes "k1")) (codes "runner.py") (codes "python3")
      (codes "stub") job_id spec none 0

process_started : runs_process ≡ (
  ok (
      (codes "type", codes "local_process")
      ∷ (codes "pid", codes "3")
      ∷ (codes "work_dir", codes "/tmp/work")
      ∷ (codes "log_path", codes "/tmp/work/runner.log")
      ∷ (codes "spec_path", codes "/tmp/work/job_spec.json")
      ∷ []),
  4,
)
unfolding Process.start signal_lab.Common.Text.show_ℕ
process_started = refl

-- The command of docker shows the secrets to everyone who lists the processes of the platform.
secrets_shown :
    Docker.docker_cmd machine dump_spec
      (all_set (codes "k1"))
      (codes "i")
      (codes "a")
      (codes "r")
      (codes "docker")
      (codes "stub")
      job_id
      spec
      (codes "/w")
    ≡ codes "docker"
      ∷ codes "run"
      ∷ codes "-d"
      ∷ codes "--rm"
      ∷ codes "--name"
      ∷ codes "signal-job-00000001"
      ∷ codes "-v"
      ∷ codes "/w:/work"
      ∷ codes "-e"
      ∷ codes "SIGNAL_JOB_SPEC=/work/job_spec.json"
      ∷ codes "-e"
      ∷ codes "SIGNAL_JOB_WORKDIR=/work"
      ∷ codes "-e"
      ∷ codes "SIGNAL_RUNNER_BACKEND=stub"
      ∷ codes "-e"
      ∷ codes "LLM_API_KEY=k1"
      ∷ codes "-e"
      ∷ codes "RUNNER_CALLBACK_SECRET=k1"
      ∷ codes "a"
      ∷ []
unfolding Docker.docker_cmd signal_lab.Common.Text.starts_with signal_lab.Common.Text.remove_prefix
secrets_shown = refl
