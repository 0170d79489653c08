-- ===== src/Research/Remote/Deploy.antt =====
-- The commands and files of a connection, and the body of `start` (signal_research/provisioners.py).
use signal_lab.Common.{
  ℕ, suc, Bool, false, Option, none, some, List, [], ◌∷◌, ◌++◌, map, take, if◌then◌else◌, Result,
  ok, err, ◌>>=◌, ◌>>◌, pure, raise,
}
use signal_lab.Common.Int.{pos, eqb_ℤ}
use signal_lab.Common.Text.{Text, codes, text_eq, starts_with, lower, show_ℕ, strip, splitlines}
use signal_lab.Contracts.Job.{JobSpec}
use signal_lab.Research.Models.{Runtime}
use signal_lab.Research.Repo.{get}
use signal_lab.Research.Ssh.{
  Fault, ssh_error, provision_error, other, SshExecResult, Environ, Hosts, Wire, Remote, quote,
  secret_env_from_spec, exported,
}

pub record RemoteSettings : Type 0 where
  pub image : Text
  pub alphaagent_image : Text
  pub rdagent_image : Text
  -- without a slash at its end
  pub remote_work_root : Text
  pub data_snapshots_dir : Option Text
  pub ssh_port : ℕ
  pub run_host_provision : Bool
  pub runner_backend : Text

abbrev pub or_else : Text → Text → Text
or_else [] t = t
or_else (c ∷ s) t = c ∷ s

unfoldable pub image_for_producer : RemoteSettings → Text → Text
image_for_producer st producer =
    if starts_with (lower producer) (codes "rdagent")
    then st.rdagent_image
    else if starts_with (lower producer) (codes "alphaagent")
    then st.alphaagent_image
    else st.image

abbrev pub last_line : List Text → Option Text
last_line [] = none
last_line (l ∷ []) = some l
last_line (l ∷ m ∷ ls) = last_line (m ∷ ls)

abbrev pub docker_args : List Text → Text
docker_args [] = []
docker_args (k ∷ []) = codes "-e " ++ quote k
docker_args (k ∷ l ∷ ks) = codes "-e " ++ quote k ++ codes " " ++ docker_args (l ∷ ks)

-- The command that starts the container: it names the secrets, and holds none.
unfoldable pub run_cmd : RemoteSettings → Text → Text → Text → List Text → Text
unfolding quote
run_cmd st name remote_dir image secrets =
    codes "docker rm -f "
    ++ quote name
    ++ codes " >/dev/null 2>&1 || true; "
    ++ codes "docker run -d --rm --name "
    ++ quote name
    ++ codes " -v "
    ++ quote remote_dir
    ++ codes ":/work "
    ++ codes "-e SIGNAL_JOB_SPEC=/work/job_spec.json "
    ++ codes "-e SIGNAL_JOB_WORKDIR=/work "
    ++ codes "-e SIGNAL_RUNNER_BACKEND="
    ++ quote st.runner_backend
    ++ codes " "
    ++ docker_args secrets
    ++ codes " "
    ++ quote image

abbrev pub recast : {A : Type 0} → Result Fault A → Result Fault A
recast (ok a) = ok a
recast (err (ssh_error e)) = err (provision_error e)
recast (err (provision_error e)) = err (provision_error e)
recast (err (other e)) = err (other e)

-- `target.get(...)`, where it is a text that is not empty
abbrev pub nonempty : Option Text → Option Text
nonempty none = none
nonempty (some []) = none
nonempty (some (c ∷ s)) = some (c ∷ s)

abbrev pub first_of : Option Text → Option Text → Option Text
first_of none b = b
first_of (some a) b = some a

-- `runtime.get("container_id") or runtime.get("container_name")`
abbrev pub container_of : Runtime → Option Text
container_of runtime =
    first_of (nonempty (get (codes "container_id") runtime))
      (nonempty (get (codes "container_name") runtime))

abbrev pub is_remote_ssh : Runtime → Bool
is_remote_ssh runtime = elim (get (codes "type") runtime) [
  | none ↦ false
  | some t ↦ text_eq t (codes "remote_ssh")
]

-- What is made of a value, without a further command.
abbrev pub settle : {W A B : Type 0} → (A → Result Fault B) → A → Remote W B
settle k a s = (k a, s)

module _ {W : Type 0} (hosts : Hosts W) where
  -- One command on the open connection, as it is sent.
  abbrev pub exec : Text → Remote W SshExecResult
  exec command s =
      let (r, w) = hosts.exec command s.world in
      (r, record s { world = w; commands = s.commands ++ command ∷ [] })

  abbrev pub run : Text → Runtime → Remote W SshExecResult
  run command env = exec (exported env command)

  abbrev pub sftp_write : Text → Text → Remote W (Unit {0})
  sftp_write path content s =
      let (r, w) = hosts.sftp_write path content s.world in
      (r, record s { world = w; files = s.files ++ (path, content) ∷ [] })

  abbrev pub write_text : Text → Text → Remote W (Unit {0})
  write_text path content =
      run (codes "mkdir -p " ++ quote (hosts.parent path)) [] >> sftp_write path content

  abbrev pub close : Wire W → Wire W
  close s = record s { world = hosts.close s.world; closed = suc s.closed }

  -- `try: ... finally: transport.close()`
  abbrev pub closing : {A : Type 0} → Remote W A → Remote W A
  closing body s = let (r, t) = body s in (r, close t)

  abbrev pub connected : Result Fault Unit × W → Wire W → Result Fault (Unit {0}) × Wire W
  connected (ok u, w) s = (ok tt, record s { world = w; opened = suc s.opened })
  connected (err e, w) s = (err e, record s { world = w })

  abbrev pub connect : Text → Text → Option Text → ℕ → Remote W (Unit {0})
  connect host user key port s = connected (hosts.connect host user key port s.world) s

  -- What `_open` makes of an error of the factory.
  abbrev pub refused : Result Fault (Unit {0}) → Result Fault (Unit {0})
  refused (ok u) = ok u
  refused (err (ssh_error e)) = err (provision_error e)
  refused (err (provision_error e)) = err (provision_error (codes "SSH: " ++ e))
  refused (err (other e)) = err (provision_error (codes "SSH: " ++ e))

  abbrev pub failed_with : SshExecResult → Text
  failed_with r = or_else r.stderr r.stdout

  abbrev pub succeeds : SshExecResult → Bool
  succeeds r = eqb_ℤ r.exit_code (pos 0)

  abbrev pub use_script : RemoteSettings → Option Text → Remote W (Unit {0})
  use_script st none = raise (provision_error (codes "no provision script"))
  use_script st (some content) =
      write_text (codes "/tmp/signal-setup_runner_host.sh") content
      >> run (codes "bash /tmp/signal-setup_runner_host.sh --image " ++ quote st.image) []
      >>= λ r.
          if succeeds r
          then pure tt
          else raise (provision_error (codes "provision: " ++ take 800 (failed_with r)))

  -- `_ensure_host_ready`: the image is fetched on a host with docker, and one without is set up.
  unfoldable pub ensure_host_ready : RemoteSettings → Remote W (Unit {0})
  unfolding quote
  ensure_host_ready st =
      run (codes "command -v docker >/dev/null 2>&1 && docker info >/dev/null 2>&1") [] >>= λ r.
      if succeeds r
      then run
          (codes "docker image inspect "
            ++ quote st.image
            ++ codes " >/dev/null 2>&1 || docker pull "
            ++ quote st.image
            ++ codes " >/dev/null 2>&1 || true")
          []
        >> pure tt
      else λ s. use_script st (hosts.provision_script s.world) s

  abbrev pub key_path : Option Text → W → Option Text
  key_path none w = none
  key_path (some key) w = if hosts.is_file key w then some key else none

  abbrev pub rsync_to : Text → Text → Text → Text → Option Text → ℕ → Remote W (Unit {0})
  rsync_to local user host path key port s =
      let (r, w) = hosts.rsync local user host path key port s.world in
      ((elim r [ ok u ↦ ok tt | err e ↦ err e ]), record s { world = w })

  abbrev pub snapshot_at : Option Text → Text → Option Text
  snapshot_at none snapshot = none
  snapshot_at (some dir) [] = none
  snapshot_at (some dir) (c ∷ snapshot) = some (dir ++ codes "/" ++ c ∷ snapshot)

  abbrev pub send_from : Option Text → Text → Text → Text → Option Text → ℕ → Remote W (Unit {0})
  send_from none user host remote_dir key port s = (ok tt, s)
  send_from (some local) user host remote_dir key port s =
      if hosts.exists local s.world
      then (run (codes "mkdir -p " ++ quote (remote_dir ++ codes "/data")) []
            >> rsync_to local user host (remote_dir ++ codes "/data") key port)
          s
      else (ok tt, s)

  -- The snapshot goes to the host where there is one.
  unfoldable pub send_snapshot :
      RemoteSettings → Text → Text → Text → Text → Option Text → Remote W (Unit {0})
  unfolding quote
  send_snapshot st snapshot user host remote_dir key =
      send_from (snapshot_at st.data_snapshots_dir snapshot) user host remote_dir key st.ssh_port

  abbrev pub optional_key : Option Text → Runtime
  optional_key none = []
  optional_key (some ref) = (codes "ssh_key_ref", ref) ∷ []

  abbrev pub runtime_of :
      RemoteSettings → Text → Text → Option Text → Text → Text → Text → Text → Runtime
  runtime_of st host user key_ref container_id name remote_dir image =
      (codes "type", codes "remote_ssh")
        ∷ (codes "host", host)
        ∷ (codes "user", user)
        ∷ optional_key key_ref
      ++ (codes "ssh_port", show_ℕ st.ssh_port)
        ∷ (codes "container_id", container_id)
        ∷ (codes "container_name", name)
        ∷ (codes "remote_work_dir", remote_dir)
        ∷ (codes "image", image)
        ∷ []

  abbrev pub started :
      RemoteSettings
      → Text
      → Text
      → Option Text
      → Text
      → Text
      → Text
      → SshExecResult
      → Result Fault Runtime
  started st host user key_ref name remote_dir image r =
      if succeeds r
      then (elim (last_line (splitlines (strip r.stdout))) [
        | none ↦ err (other (codes "list index out of range"))
        | some l ↦ ok (runtime_of st host user key_ref (strip l) name remote_dir image)
      ])
      else err (provision_error (strip (codes "docker run: " ++ failed_with r)))

  module _ {F : Type 0} (dump_spec : JobSpec F → Text) (st : RemoteSettings)
      (environ : Environ) where
    -- The body of the `try` of `start`.
    unfoldable pub deploy : Text → JobSpec F → Text → Text → Option Text → Remote W Runtime
    unfolding ensure_host_ready send_snapshot image_for_producer run_cmd secret_env_from_spec
    deploy job_id spec host user key =
        let remote_dir = st.remote_work_root ++ codes "/" ++ job_id in
        let name = codes "signal-job-" ++ take 8 job_id in
        let secrets = secret_env_from_spec environ spec in
        let image = image_for_producer st spec.producer in
        (if st.run_host_provision then ensure_host_ready st else pure tt)
        >> run (codes "mkdir -p " ++ quote remote_dir) []
        >> write_text (remote_dir ++ codes "/job_spec.json") (dump_spec spec)
        >> (λ s. send_snapshot st spec.data_snapshot user host remote_dir (key_path key s.world) s)
        >> run (run_cmd st name remote_dir image (map (λ kv. kv.0) secrets)) secrets
        >>= settle (started st host user spec.runner_target.ssh_key_ref name remote_dir image)
