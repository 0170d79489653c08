-- ===== src/Research/Remote.antt =====
-- packages/research/src/signal_research/provisioners.py, `RemoteSSHProvisioner`, over the record
-- `Hosts`. Dumping a specification as JSON is a parameter, and `repr` of an error is its text.
mod Deploy
use signal_lab.Common.{
  ℕ, ◌+◌, ◌-◌, ◌*◌, zero, suc, ◌==◌, Bool, true, false, not, ◌&&◌, Option, none, some, List, [],
  ◌∷◌, ◌++◌, map, take, if◌then◌else◌, Result, ok, err, Exec, ◌>>=◌, ◌>>◌, pure, raise,
}
use signal_lab.Common.Int.{pos, eqb_ℤ}
use signal_lab.Common.Text.{
  value_of_digits, Text, codes, text_eq, starts_with, lower, show_ℕ, strip, splitlines,
}
use signal_lab.Contracts.Job.{JobSpec}
use signal_lab.Research.Models.{Runtime}
use signal_lab.Research.Repo.{get}
use signal_lab.Research.Ssh.{
  Fault, ssh_error, provision_error, other, SshExecResult, Environ, Hosts, Wire, Remote,
  resolve_ssh_key, quote, secret_env_from_spec,
}
unfoldable pub use Deploy.*

module _ {W : Type 0} (hosts : Hosts W) where
  module _ {F : Type 0} (dump_spec : JobSpec F → Text) (st : RemoteSettings)
      (environ : Environ) where
    abbrev pub after_connect : Result Fault (Unit {0}) → Remote W Runtime → Remote W Runtime
    after_connect (err e) body s = (err e, s)
    after_connect (ok u) body s = body s

    abbrev pub open_with :
        Text
        → Text
        → Result Fault (Option Text)
        → (Option Text → Remote W Runtime)
        → Remote W Runtime
    open_with host user (err e) body s = (err e, s)
    open_with host user (ok key) body s =
        let (r, t) = connect hosts host user key st.ssh_port s in
        after_connect (refused hosts r) (body key) t

    abbrev pub open_target :
        Option Text
        → Option Text
        → Option Text
        → (Text → Text → Option Text → Remote W Runtime)
        → Remote W Runtime
    open_target (some host) (some user) key_ref body =
        open_with host user (resolve_ssh_key environ key_ref) (body host user)
    open_target _ _ key_ref body = raise (provision_error (codes "no host or user"))

    -- `try: ... except SshError: raise ProvisionError ... finally: transport.close()`
    abbrev pub guarded : Remote W Runtime → Remote W Runtime
    guarded body s = let (r, t) = body s in (recast r, close hosts t)

    unfoldable pub start : Text → JobSpec F → Remote W Runtime
    unfolding deploy resolve_ssh_key
    start job_id spec =
        let target = spec.runner_target in
        open_target (nonempty target.host) (nonempty target.user) target.ssh_key_ref
          (λ host user key. guarded (deploy hosts dump_spec st environ job_id spec host user key))

  module _ (st : RemoteSettings) (environ : Environ) where
    -- `int(runtime.get("ssh_port") or self._ssh_port)`
    abbrev pub port_of : Option Text → ℕ
    port_of none = st.ssh_port
    port_of (some digits) = value_of_digits digits 0

    abbrev pub connect_with : Text → Text → ℕ → Result Fault (Option Text) → Remote W (Unit {0})
    connect_with host user port (err e) s = (err e, s)
    connect_with host user port (ok key) s = connect hosts host user key port s

    abbrev pub reconnect_to : Option Text → Option Text → Option Text → ℕ → Remote W (Unit {0})
    reconnect_to (some host) (some user) key_ref port =
        connect_with host user port (resolve_ssh_key environ key_ref)
    reconnect_to _ _ key_ref port = raise (provision_error (codes "no host or user"))

    unfoldable pub reconnect : Runtime → Remote W (Unit {0})
    unfolding resolve_ssh_key get
    reconnect runtime =
        reconnect_to (nonempty (get (codes "host") runtime)) (nonempty (get (codes "user") runtime))
          (get (codes "ssh_key_ref") runtime) (port_of (nonempty (get (codes "ssh_port") runtime)))

    -- A connection that cannot be opened is only noted; after it there is one to close.
    abbrev pub once_open : {A : Type 0} → Runtime → A → Remote W A → Remote W A
    once_open runtime none_open body s =
        let (r, t) = reconnect runtime s in
        elim r [ err e ↦ (ok none_open, t) | ok u ↦ closing hosts body t ]

    abbrev pub is_running : SshExecResult → Bool
    is_running r = succeeds hosts r && text_eq (strip r.stdout) (codes "true")

    abbrev pub ask_running : Option Text → Runtime → Remote W Bool
    ask_running none runtime = pure false
    ask_running (some cid) runtime = once_open runtime false (
        run hosts
          (codes "docker inspect -f '{{.State.Running}}' " ++ quote cid ++ codes " 2>/dev/null") []
        >>= λ r. pure (is_running r))

    -- An error of the command is not caught here.
    unfoldable pub is_alive : Runtime → Remote W Bool
    unfolding reconnect quote
    is_alive runtime s =
        if is_remote_ssh runtime
        then ask_running (container_of runtime) runtime s
        else (ok false, s)

    abbrev pub remove_container : Option Text → Remote W (Unit {0})
    remove_container none = pure tt
    remove_container (some cid) =
        run hosts (codes "docker rm -f " ++ quote cid ++ codes " >/dev/null 2>&1 || true") []
        >> pure tt

    unfoldable pub stop : Runtime → Remote W (Unit {0})
    unfolding reconnect quote
    stop runtime s =
        if is_remote_ssh runtime
        then once_open runtime tt (remove_container (container_of runtime)) s
        else (ok tt, s)

    abbrev pub remove_dir : Option Text → Remote W (Unit {0})
    remove_dir none = pure tt
    remove_dir (some dir) =
        if starts_with dir st.remote_work_root
        then run hosts (codes "rm -rf " ++ quote dir) [] >> pure tt
        else pure tt

    unfoldable pub cleanup : Runtime → Remote W (Unit {0})
    unfolding reconnect quote
    cleanup runtime s =
        if is_remote_ssh runtime
        then once_open runtime tt
            (remove_container (container_of runtime)
              >> remove_dir (nonempty (get (codes "remote_work_dir") runtime)))
            s
        else (ok tt, s)

    abbrev pub read_events : Option Text → Runtime → Remote W (Option Text)
    read_events none runtime = pure none
    read_events (some dir) runtime =
        let path = quote (dir ++ codes "/events.jsonl") in
        once_open runtime none (
          run hosts (codes "test -f " ++ path ++ codes " && cat " ++ path) [] >>= λ r.
          pure (if succeeds hosts r then some r.stdout else none))

    unfoldable pub fetch_events_jsonl : Runtime → Remote W (Option Text)
    unfolding reconnect quote
    fetch_events_jsonl runtime s =
        if is_remote_ssh runtime
        then read_events (nonempty (get (codes "remote_work_dir") runtime)) runtime s
        else (ok none, s)
