-- ===== src/Research/Local.antt =====
-- packages/research/src/signal_research/provisioners.py, `LocalProcessProvisioner` and
-- `LocalDockerProvisioner`, over the record `Machine`. Dumping a specification is a parameter.
pub mod Process
pub mod Docker
use signal_lab.Common.{
  ℕ, Bool, true, false, Option, none, some, List, [], ◌∷◌, ◌++◌, take, if◌then◌else◌, Result, ok,
  err, Exec, ◌>>=◌, ◌>>◌, pure, raise,
}
use signal_lab.Common.Text.{Text, codes, text_eq, starts_with, remove_prefix, lower, strip, show_ℕ}
use signal_lab.Contracts.Job.{JobSpec}
use signal_lab.Research.Models.{Runtime}
use signal_lab.Research.Repo.{get}
use signal_lab.Research.Ssh.{Fault, provision_error, other, Environ}
use signal_lab.Research.Remote.{nonempty, container_of}

-- A CalledProcessError with its output, or another exception.
pub data Failure : Type 0 where
  called_process_error failure : Text → Failure

-- The files and processes of the platform.
pub record Machine (W : Type 0) : Type 0 where
  pub exists : Text → W → Bool
  pub which : Text → W → Bool
  -- `tempfile.mkdtemp`, by the prefix
  pub mkdtemp : Text → W → Result Fault Text × W
  pub mkdir : Text → W → Result Fault (Unit {0}) × W
  pub write_text : Text → Text → W → Result Fault (Unit {0}) × W
  -- the command, its directory, its environment and its log
  pub popen : List Text → Text → Environ → Text → W → Result Text ℕ × W
  -- `os.kill`; false stands for an OSError
  pub kill : Text → ℕ → W → Bool × W
  pub check_output : List Text → W → Result Failure Text × W
  -- `subprocess.run` with `check=False`
  pub run : List Text → W → Result Fault (Unit {0}) × W

abbrev pub spec_path : Text → Text
spec_path root = root ++ codes "/job_spec.json"

abbrev pub with_var : Text → Text → Environ → Environ
with_var var value env x = if text_eq x var then some value else env x

module _ {W : Type 0} (machine : Machine W) {F : Type 0} (dump_spec : JobSpec F → Text) where
  abbrev pub root_of : Text → Option Text → Exec W Fault Text
  root_of job_id none = machine.mkdtemp (codes "signal-job-" ++ take 8 job_id ++ codes "-")
  root_of job_id (some root) = pure root

  -- The work directory, with the specification in it.
  abbrev pub prepare : Text → JobSpec F → Option Text → Exec W Fault Text
  prepare job_id spec work_root = root_of job_id (nonempty work_root) >>= λ root.
      machine.mkdir root >> machine.write_text (spec_path root) (dump_spec spec) >> pure root
