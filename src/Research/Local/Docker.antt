-- ===== src/Research/Local/Docker.antt =====
-- A job as a container on the platform (`LocalDockerProvisioner` of signal_research/provisioners.py).
use signal_lab.Common.{
  Bool, false, Option, none, some, List, [], ◌∷◌, ◌++◌, take, if◌then◌else◌, Result, ok, err, Exec,
  ◌>>=◌, pure,
}
use signal_lab.Common.Text.{Text, codes, text_eq, starts_with, remove_prefix, lower, strip}
use signal_lab.Contracts.Job.{JobSpec}
use signal_lab.Research.Models.{Runtime}
use signal_lab.Research.Repo.{get}
use signal_lab.Research.Ssh.{Fault, provision_error, other, Environ}
use signal_lab.Research.Remote.{container_of}
use signal_lab.Research.Local.{Failure, called_process_error, failure, Machine, spec_path, prepare}

module _ {W : Type 0} (machine : Machine W) {F : Type 0} (dump_spec : JobSpec F → Text)
    (environ : Environ)
    (image alphaagent_image rdagent_image docker_bin runner_backend : Text) where
  abbrev pub image_for_producer : Text → Text
  image_for_producer producer =
      if starts_with (lower producer) (codes "rdagent")
      then rdagent_image
      else if starts_with (lower producer) (codes "alphaagent")
      then alphaagent_image
      else image

  -- Here the command holds the value of a secret.
  abbrev pub value_arg : Text → Option Text → List Text
  value_arg var none = []
  value_arg var (some value) = codes "-e" ∷ (var ++ codes "=" ++ value) ∷ []

  abbrev pub secret_arg : Text → List Text
  secret_arg ref =
      if starts_with ref (codes "env:")
      then (let var = remove_prefix (codes "env:") ref in value_arg var (environ var))
      else []

  abbrev pub container_name : Text → Text
  container_name job_id = codes "signal-job-" ++ take 8 job_id

  unfoldable pub docker_cmd : Text → JobSpec F → Text → List Text
  docker_cmd job_id spec root =
      docker_bin
        ∷ codes "run"
        ∷ codes "-d"
        ∷ codes "--rm"
        ∷ codes "--name"
        ∷ container_name job_id
        ∷ codes "-v"
        ∷ (root ++ codes ":/work")
        ∷ codes "-e"
        ∷ codes "SIGNAL_JOB_SPEC=/work/job_spec.json"
        ∷ codes "-e"
        ∷ codes "SIGNAL_JOB_WORKDIR=/work"
        ∷ codes "-e"
        ∷ (codes "SIGNAL_RUNNER_BACKEND=" ++ runner_backend)
        ∷ []
      ++ secret_arg spec.llm.api_key_ref
      ++ secret_arg spec.callback.hmac_key_ref
      ++ image_for_producer spec.producer ∷ []

  abbrev pub docker_runtime : Text → Text → Text → Text → Runtime
  docker_runtime job_id out root image =
      (codes "type", codes "local_docker")
      ∷ (codes "container_id", out)
      ∷ (codes "container_name", container_name job_id)
      ∷ (codes "work_dir", root)
      ∷ (codes "spec_path", spec_path root)
      ∷ (codes "image", image)
      ∷ []

  abbrev pub launched : Text → JobSpec F → Text → Result Failure Text → Result Fault Runtime
  launched job_id spec root (ok out) =
      ok (docker_runtime job_id (strip out) root (image_for_producer spec.producer))
  launched job_id spec root (err (called_process_error out)) =
      err (provision_error (codes "docker run: " ++ out))
  launched job_id spec root (err (failure e)) = err (other e)

  unfoldable pub start : Text → JobSpec F → Option Text → Exec W Fault Runtime
  unfolding docker_cmd
  start job_id spec work_root w =
      if machine.which docker_bin w
      then (prepare machine dump_spec job_id spec work_root >>= λ root w.
            let (r, w') = machine.check_output (docker_cmd job_id spec root) w in
            (launched job_id spec root r, w'))
          w
      else (err (provision_error (codes "no docker")), w)

  abbrev pub is_true : Result Failure Text → Result Fault Bool
  is_true (ok out) = ok (text_eq (strip out) (codes "true"))
  is_true (err (called_process_error out)) = ok false
  is_true (err (failure e)) = err (other e)

  abbrev pub ask_running : Option Text → Exec W Fault Bool
  ask_running none w = (ok false, w)
  ask_running (some cid) w =
      let (r, w') =
        machine.check_output
          (docker_bin ∷ codes "inspect" ∷ codes "-f" ∷ codes "{{.State.Running}}" ∷ cid ∷ []) w in
      (is_true r, w')

  unfoldable pub is_alive : Runtime → Exec W Fault Bool
  unfolding get
  is_alive runtime = ask_running (container_of runtime)

  abbrev pub remove_container : Option Text → Exec W Fault (Unit {0})
  remove_container none = pure tt
  remove_container (some cid) = machine.run (docker_bin ∷ codes "rm" ∷ codes "-f" ∷ cid ∷ [])

  -- `cleanup` is the same.
  unfoldable pub stop : Runtime → Exec W Fault (Unit {0})
  unfolding get
  stop runtime = remove_container (container_of runtime)
