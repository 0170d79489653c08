-- ===== src/Research/Reconnect.antt =====
-- What `start` returns is enough to find the container again (signal_research/provisioners.py).
use signal_lab.Common.{◌≡◌, refl, ap, ◌∙◌, Option, none, some, [], ◌∷◌, ok}
use signal_lab.Common.Text.{Text, codes, text_eq, show_ℕ, value_of_digits, value-show_ℕ}
use signal_lab.Contracts.Job.{JobSpec}
use signal_lab.Research.Models.{Runtime}
use signal_lab.Research.Repo.{get}
use signal_lab.Research.Ssh.{Environ, Hosts, Wire, resolve_ssh_key}
use signal_lab.Research.Remote.{
  RemoteSettings, connect, runtime_of, start, nonempty, reconnect, port_of,
}
use signal_lab.Research.Began.{nonempty-some, start-Began}

module _ {W : Type 0} (hosts : Hosts W) where
  module _ (st : RemoteSettings) (environ : Environ) where
    port_of-show :
        (t : Text)
        → value_of_digits t 0 ≡ st.ssh_port
        → port_of hosts st environ (nonempty (some t)) ≡ st.ssh_port
    port_of-show [] e = refl
    port_of-show (c ∷ t) e = e

    get_key :
        (host user : Text) (key_ref : Option Text) (cid name dir image : Text)
        → get (codes "ssh_key_ref") (runtime_of hosts st host user key_ref cid name dir image)
          ≡ key_ref
    unfolding get text_eq
    get_key host user none cid name dir image = refl
    get_key host user (some r) cid name dir image = refl

    get_port :
        (host user : Text) (key_ref : Option Text) (cid name dir image : Text)
        → get (codes "ssh_port") (runtime_of hosts st host user key_ref cid name dir image)
          ≡ some (show_ℕ st.ssh_port)
    unfolding get text_eq
    get_port host user none cid name dir image = refl
    get_port host user (some r) cid name dir image = refl

    pub get_dir :
        (host user : Text) (key_ref : Option Text) (cid name dir image : Text)
        → get (codes "remote_work_dir") (runtime_of hosts st host user key_ref cid name dir image)
          ≡ some dir
    unfolding get text_eq
    get_dir host user none cid name dir image = refl
    get_dir host user (some r) cid name dir image = refl

    reconnect-runtime_of :
        (host user : Text) (key_ref : Option Text) (cid name dir image : Text) (key : Option Text)
        (s : Wire W)
        → nonempty (some host) ≡ some host
        → nonempty (some user) ≡ some user
        → resolve_ssh_key environ key_ref ≡ ok key
        → reconnect hosts st environ (runtime_of hosts st host user key_ref cid name dir image) s
          ≡ connect hosts host user key st.ssh_port s
    unfolding reconnect get text_eq
    reconnect-runtime_of host user key_ref cid name dir image key s a b c =
        rw
          (
            a,
            b,
            get_key host user key_ref cid name dir image,
            get_port host user key_ref cid name dir image,
            port_of-show (show_ℕ st.ssh_port) (value-show_ℕ st.ssh_port),
            c,
          )
          refl

  -- A job that was started is found again: with what `start` returned, a connection is made to the
  -- host, as the user and with the key of its specification, which are there, and by the port of the
  -- settings.
  pub started_reconnects :
      {F : Type 0} (dump_spec : JobSpec F → Text) (st : RemoteSettings) (environ : Environ)
      (job_id : Text) (spec : JobSpec F) (runtime : Runtime) (s u : Wire W)
      → (start hosts dump_spec st environ job_id spec s).0 ≡ ok runtime
      → (host user : Text) × (key : Option Text) × (spec.runner_target.host ≡ some host)
        × (spec.runner_target.user ≡ some user)
        × (resolve_ssh_key environ spec.runner_target.ssh_key_ref ≡ ok key)
        × (reconnect hosts st environ runtime u ≡ connect hosts host user key st.ssh_port u)
  started_reconnects dump_spec st environ job_id spec runtime s u e =
      let b = start-Began hosts dump_spec st environ job_id spec runtime s e in
      let (is_host, host_given) = nonempty-some spec.runner_target.host b.host b.at_host in
      let (is_user, user_given) = nonempty-some spec.runner_target.user b.user b.by_user in
      (
        b.host,
        b.user,
        b.key,
        is_host,
        is_user,
        b.by_key,
        ap (λ r. reconnect hosts st environ r u) b.is_runtime
            ∙ reconnect-runtime_of st environ b.host b.user spec.runner_target.ssh_key_ref
                b.container_id _ _ _ b.key u host_given user_given b.by_key,
      )
