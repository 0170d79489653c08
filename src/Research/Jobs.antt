-- ===== src/Research/Jobs.antt =====
-- packages/research/src/signal_research/service.py: starting, retrying and cleaning up a job.
use signal_lab.Common.{
  ℕ, Bool, true, false, Option, none, some, [], take, if◌then◌else◌, Result, ok, err, Exec,
}
use signal_lab.Common.Text.{Text, codes, text_eq, or_default}
use signal_lab.Contracts.Job.{TargetType, local_docker, remote_ssh}
use signal_lab.Research.Models.{
  JobStatus, draft, provisioning, running, failed, lost, Runtime, ResearchJob,
}
use signal_lab.Research.Repo.{get_job, set_status, update_runtime, touch_heartbeat, get}
use signal_lab.Research.Ports.{Provisioner, Provisioners}
use signal_lab.Research.Session.{Error, not_startable, not_lost, unknown_job, raised, Session, save}

abbrev pub is_remote : TargetType → Bool
is_remote remote_ssh = true
is_remote local_docker = false

abbrev wants_remote : Option Bool → TargetType → Bool
wants_remote none target = is_remote target
wants_remote (some b) target = b

abbrev target_text : TargetType → Text
target_text local_docker = codes "local_docker"
target_text remote_ssh = codes "remote_ssh"

-- `(runtime or {}).get("type")`, and the target of the spec where that is missing.
abbrev runtime_type : {F : Type 0} → ResearchJob F → Text
runtime_type j = elim (get (codes "type") j.runtime) [
  | none ↦ target_text j.spec.runner_target.type
  | some t ↦ or_default t (target_text j.spec.runner_target.type)
]

abbrev pub startable : JobStatus → Bool
startable draft = true
startable lost = true
startable failed = true
startable _ = false

abbrev pub is_lost : JobStatus → Bool
is_lost lost = true
is_lost _ = false

module _ {F E : Type 0} where
  -- The choice of `start_job`.
  unfoldable pub provisioner_for_start :
      Provisioners F E → Bool → Option Bool → ResearchJob F → Provisioner F E
  provisioner_for_start ps use_docker use_remote j =
      if wants_remote use_remote j.spec.runner_target.type
      then ps.remote
      else if use_docker
      then ps.docker
      else ps.local_process
          (or_default j.producer (or_default j.spec.producer (codes "alphaagent")))

  -- `_provisioner_for_runtime`
  unfoldable pub provisioner_for_runtime : Provisioners F E → ResearchJob F → Provisioner F E
  unfolding get
  provisioner_for_runtime ps j =
      if text_eq (runtime_type j) (codes "remote_ssh")
      then ps.remote
      else if text_eq (runtime_type j) (codes "local_docker")
      then ps.docker
      else ps.local_process (or_default j.spec.producer (codes "alphaagent"))

  -- The row and the answer after the provisioner's `start`.
  unfoldable pub after_start :
      ℕ → ResearchJob F → Result Text Runtime → Exec (Session F E) Error (ResearchJob F)
  unfolding set_status update_runtime touch_heartbeat
  after_start now j (err message) s =
      (err (raised message), save (set_status now failed (take 500 message) true j) s)
  after_start now j (ok runtime) s =
      let j' =
        touch_heartbeat now none none none none
          (set_status now running [] false (update_runtime now runtime j)) in
      (ok j', save j' s)

  -- From the first commit on: the row is `provisioning`, and the provisioner is called.
  unfoldable pub start_with :
      Provisioner F E → ℕ → ResearchJob F → Exec (Session F E) Error (ResearchJob F)
  unfolding set_status
  start_with p now j s =
      let j' = set_status now provisioning [] false j in
      let (answer, world) = p.start j'.id j'.spec s.world in
      after_start now j' answer (save j' (record s { world = world }))

  unfoldable pub start_found :
      Provisioners F E
      → ℕ
      → ℕ
      → Bool
      → Option Bool
      → Option (ResearchJob F)
      → Exec (Session F E) Error (ResearchJob F)
  start_found ps now id use_docker use_remote none s = (err (unknown_job id), s)
  start_found ps now id use_docker use_remote (some j) s =
      if startable j.status
      then start_with (provisioner_for_start ps use_docker use_remote j) now j s
      else (err (not_startable j.status), s)

  unfoldable pub start_job :
      Provisioners F E → ℕ → ℕ → Bool → Option Bool → Exec (Session F E) Error (ResearchJob F)
  start_job ps now id use_docker use_remote s =
      start_found ps now id use_docker use_remote (get_job id s.db.jobs) s

  unfoldable pub retry_found :
      Provisioners F E → ℕ → ℕ → Option (ResearchJob F) → Exec (Session F E) Error (ResearchJob F)
  unfolding start_job
  retry_found ps now id none s = (err (unknown_job id), s)
  retry_found ps now id (some j) s =
      if is_lost j.status then start_job ps now id false none s else (err not_lost, s)

  unfoldable pub retry_job : Provisioners F E → ℕ → ℕ → Exec (Session F E) Error (ResearchJob F)
  retry_job ps now id s = retry_found ps now id (get_job id s.db.jobs) s

  unfoldable pub cleanup_found :
      Provisioners F E → ℕ → Option (ResearchJob F) → Exec (Session F E) Error Unit
  cleanup_found ps id none s = (err (unknown_job id), s)
  cleanup_found ps id (some j) s =
      let (answer, world) = (provisioner_for_runtime ps j).cleanup j.runtime s.world in
      (elim answer [ err message ↦ err (raised message) | ok u ↦ ok u ], record s { world = world })

  unfoldable pub cleanup_job : Provisioners F E → ℕ → Exec (Session F E) Error Unit
  cleanup_job ps id s = cleanup_found ps id (get_job id s.db.jobs) s
