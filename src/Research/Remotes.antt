-- ===== src/Research/Remotes.antt =====
-- Jobs on a remote host that answers every command, and the theorems at such inputs.
use signal_lab.Common.{
  ℕ, ◌+◌, ◌≡◌, refl, true, false, Option, none, some, List, [], ◌∷◌, Result, ok, err,
}
use signal_lab.Common.Int.{ℤ, pos}
use signal_lab.Common.Text.{Text, codes}
use signal_lab.Contracts.Job.{JobSpec, remote_ssh}
use signal_lab.Research.Models.{Runtime}
use signal_lab.Research.Repo.{get}
use signal_lab.Research.Ssh.{
  secret_env_from_spec, resolve_ssh_key, Fault, Hosts, Wire, Environ, SshExecResult,
}
use signal_lab.Research.Remote.{reconnect, connect, RemoteSettings, start}
use signal_lab.Research.Reconnect.{started_reconnects}
use signal_lab.Research.Secret.{SameTold, secrets_stay}
use signal_lab.Research.Tests.{spec}

abbrev answer : SshExecResult
answer = record { exit_code = pos 0; stdout = codes "pulled\nc0ffee\n"; stderr = [] }

-- The world counts what the host was asked for.
abbrev hosts : Hosts ℕ
hosts = record {
  connect = λ host user key port w. (ok tt, w + 1);
  exec = λ command w. (ok answer, w + 1);
  parent = λ path. codes "/tmp/signal-jobs/00000001-aaaa";
  sftp_write = λ path content w. (ok tt, w + 1);
  close = λ w. w + 1;
  rsync = λ local user host path key port w. (ok tt, w + 1);
  exists = λ path w. true;
  is_file = λ path w. false;
  provision_script = λ w. none;
}

abbrev settings : RemoteSettings
settings = record {
  image = codes "signal-rdagent:stub";
  alphaagent_image = codes "signal-alphaagent:stub";
  rdagent_image = codes "signal-rdagent:stub";
  remote_work_root = codes "/tmp/signal-jobs";
  data_snapshots_dir = none;
  ssh_port = 22;
  run_host_provision = false;
  runner_backend = codes "stub";
}

abbrev remote_spec : JobSpec ℤ
remote_spec = record spec {
  runner_target = record {
    type = remote_ssh;
    host = some (codes "gpu-1");
    user = some (codes "lab");
    ssh_key_ref = none;
  };
}

abbrev pub dump_spec : JobSpec ℤ → Text
dump_spec _ = codes "{}"

-- Every variable is set to the same value.
abbrev pub all_set : Text → Environ
all_set value var = some value

abbrev no_wire : Wire ℕ
no_wire = record { world = 0; opened = 0; closed = 0; commands = []; files = [] }

abbrev pub job_id : Text
job_id = codes "00000001-aaaa"

abbrev begin : Result Fault Runtime × Wire ℕ
begin = start hosts dump_spec settings (all_set (codes "k1")) job_id remote_spec no_wire

abbrev returned : Runtime
returned = elim begin.0 [ ok r ↦ r | err e ↦ [] ]

abbrev running_there : Runtime
running_there =
    (codes "type", codes "remote_ssh")
    ∷ (codes "host", codes "gpu-1")
    ∷ (codes "user", codes "lab")
    ∷ (codes "container_id", codes "c0ffee")
    ∷ (codes "remote_work_dir", codes "/tmp/signal-jobs/00000001-aaaa")
    ∷ []

begun :
    elim begin.0 as (λ _. Option Text) [ ok r ↦ get (codes "container_id") r | err e ↦ none ]
    ≡ some (codes "c0ffee")
unfolding start signal_lab.Common.Text.splitlines signal_lab.Common.Text.strip get
    signal_lab.Common.Text.text_eq
begun = refl

told :
    begin.1.commands
    ≡ codes "mkdir -p /tmp/signal-jobs/00000001-aaaa"
      ∷ codes "mkdir -p /tmp/signal-jobs/00000001-aaaa"
      ∷ codes
          "export LLM_API_KEY=k1; export RUNNER_CALLBACK_SECRET=k1; export CALLBACK_HMAC_SECRET=k1; docker rm -f signal-job-00000001 >/dev/null 2>&1 || true; docker run -d --rm --name signal-job-00000001 -v /tmp/signal-jobs/00000001-aaaa:/work -e SIGNAL_JOB_SPEC=/work/job_spec.json -e SIGNAL_JOB_WORKDIR=/work -e SIGNAL_RUNNER_BACKEND=stub -e LLM_API_KEY -e RUNNER_CALLBACK_SECRET -e CALLBACK_HMAC_SECRET signal-alphaagent:stub"
      ∷ []
unfolding start signal_lab.Common.Text.starts_with signal_lab.Common.Text.text_eq
    signal_lab.Common.Text.remove_prefix signal_lab.Research.Ssh.exported
told = refl

secrets_stay_example :
    SameTold hosts
      (secret_env_from_spec (all_set (codes "k1")) remote_spec)
      (secret_env_from_spec (all_set (codes "k2")) remote_spec)
      (start hosts dump_spec settings (all_set (codes "k1")) job_id remote_spec no_wire).1
      (start hosts dump_spec settings (all_set (codes "k2")) job_id remote_spec no_wire).1
unfolding signal_lab.Research.Ssh.resolve_ssh_key
secrets_stay_example =
    secrets_stay hosts dump_spec settings (all_set (codes "k1")) (all_set (codes "k2")) job_id
      remote_spec no_wire (λ var. refl) refl

started_reconnects_example :
    (host user : Text) × (key : Option Text) × (remote_spec.runner_target.host ≡ some host)
    × (remote_spec.runner_target.user ≡ some user)
    × (resolve_ssh_key (all_set (codes "k1")) none ≡ ok key)
    × (reconnect hosts settings (all_set (codes "k1")) returned begin.1
        ≡ connect hosts host user key 22 begin.1)
unfolding start signal_lab.Common.Text.splitlines signal_lab.Common.Text.strip
started_reconnects_example =
    started_reconnects hosts dump_spec settings (all_set (codes "k1")) job_id remote_spec returned
      no_wire begin.1 refl

-- The connection that is made again.
abbrev again : Wire ℕ
again = (reconnect hosts settings (all_set (codes "k1")) returned begin.1).1
