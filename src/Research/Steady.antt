-- ===== src/Research/Steady.antt =====
-- What neither opens nor closes a connection to a host (signal_research/provisioners.py).
use signal_lab.Common.{
  ℕ, ◌≡◌, refl, ◌∙◌, Bool, true, false, Option, none, some, [], ◌++◌, take, map, Result, ok, err,
  if◌then◌else◌, ◌>>=◌, pure, raise,
}
use signal_lab.Common.Text.{Text, codes}
use signal_lab.Contracts.Job.{JobSpec}
use signal_lab.Research.Ssh.{Fault, Environ, Hosts, Wire, Remote, secret_env_from_spec}
use signal_lab.Research.Models.{Runtime}
use signal_lab.Research.Remote.{
  RemoteSettings, image_for_producer, run_cmd, run, sftp_write, write_text, succeeds, use_script,
  ensure_host_ready, key_path, rsync_to, snapshot_at, send_from, send_snapshot, started, settle,
  deploy,
}

-- What opens and closes nothing.
pub record Steady {W A : Type 0} (x : Remote W A) : Type 0 where
  pub opens : (s : Wire W) → (x s).1.opened ≡ s.opened
  pub closes : (s : Wire W) → (x s).1.closed ≡ s.closed

module _ {W : Type 0} where
  pub pure-Steady : {A : Type 0} (a : A) → Steady {W = W} (pure a)
  pure-Steady a = record { opens = λ s. refl; closes = λ s. refl }

  bind_opens :
      {A B : Type 0} (r : Result Fault A) (k : A → Remote W B) (t : Wire W)
      → ((a : A) → Steady (k a))
      → ((((λ (s : Wire W). (r, s)) >>= k) t).1.opened ≡ t.opened)
        × ((((λ (s : Wire W). (r, s)) >>= k) t).1.closed ≡ t.closed)
  bind_opens (ok a) k t h = ((h a).opens t, (h a).closes t)
  bind_opens (err e) k t h = (refl, refl)

  pub bind-Steady :
      {A B : Type 0} {x : Remote W A} {k : A → Remote W B}
      → Steady x
      → ((a : A) → Steady (k a))
      → Steady (x >>= k)
  bind-Steady {x = x} {k = k} hx hk = record {
    opens = λ s. (bind_opens (x s).0 k (x s).1 hk).0 ∙ hx.opens s;
    closes = λ s. (bind_opens (x s).0 k (x s).1 hk).1 ∙ hx.closes s;
  }

  pub choose-Steady :
      {A : Type 0} (b : Bool) {x y : Remote W A} → Steady x → Steady y → Steady (if b then x else y)
  choose-Steady true hx hy = hx
  choose-Steady false hx hy = hy

  choose_same :
      {A : Type 0} (f : Wire W → ℕ) {n : ℕ} (b : Bool) (p q : Result Fault A × Wire W)
      → f p.1 ≡ n
      → f q.1 ≡ n
      → f (if b then p else q).1 ≡ n
  choose_same f true p q hp hq = hp
  choose_same f false p q hp hq = hq

  module _ (hosts : Hosts W) where
    pub run-Steady : (c : Text) (env : Runtime) → Steady (run hosts c env)
    run-Steady c env = record { opens = λ s. refl; closes = λ s. refl }

    pub write_text-Steady : (path content : Text) → Steady (write_text hosts path content)
    write_text-Steady path content =
        bind-Steady {k = λ _. sftp_write hosts path content} (run-Steady _ [])
          (λ _. record { opens = λ s. refl; closes = λ s. refl })

    pub raise-Steady : {A : Type 0} (e : Fault) → Steady {W = W} {A = A} (raise e)
    raise-Steady e = record { opens = λ s. refl; closes = λ s. refl }

    pub use_script-Steady :
        (st : RemoteSettings) (content : Option Text) → Steady (use_script hosts st content)
    use_script-Steady st none = raise-Steady _
    use_script-Steady st (some content) =
        bind-Steady (bind-Steady (write_text-Steady _ content) (λ _. run-Steady _ []))
          (λ r. choose-Steady (succeeds hosts r) (pure-Steady tt) (raise-Steady _))

    pub at_state-Steady :
        {A : Type 0} {f : Wire W → Remote W A} → ((s : Wire W) → Steady (f s)) → Steady (λ s. f s s)
    at_state-Steady h = record { opens = λ s. (h s).opens s; closes = λ s. (h s).closes s }

    pub ensure_host_ready-Steady : (st : RemoteSettings) → Steady (ensure_host_ready hosts st)
    unfolding ensure_host_ready
    ensure_host_ready-Steady st = bind-Steady (run-Steady _ []) (λ r.
        choose-Steady (succeeds hosts r) (bind-Steady (run-Steady _ []) (λ _. pure-Steady tt))
          (at_state-Steady (λ s. use_script-Steady st (hosts.provision_script s.world))))

    pub rsync_to-Steady :
        (local user host path : Text) (key : Option Text) (port : ℕ)
        → Steady (rsync_to hosts local user host path key port)
    rsync_to-Steady local user host path key port = record { opens = λ s. refl; closes = λ s. refl }

    pub choice-Steady :
        {A : Type 0} (b : Wire W → Bool) {x y : Remote W A}
        → Steady x
        → Steady y
        → Steady (λ s. if b s then x s else y s)
    choice-Steady b {x = x} {y = y} hx hy = record {
      opens = λ s. choose_same (λ t. t.opened) (b s) (x s) (y s) (hx.opens s) (hy.opens s);
      closes = λ s. choose_same (λ t. t.closed) (b s) (x s) (y s) (hx.closes s) (hy.closes s);
    }

    pub send_from-Steady :
        (local : Option Text) (user host dir : Text) (key : Option Text) (port : ℕ)
        → Steady (send_from hosts local user host dir key port)
    send_from-Steady none user host dir key port = pure-Steady tt
    send_from-Steady (some local) user host dir key port =
        choice-Steady (λ s. hosts.exists local s.world)
          (bind-Steady (run-Steady _ []) (λ _. rsync_to-Steady local user host _ key port))
          (pure-Steady tt)

    pub deploy-Steady :
        {F : Type 0} (dump_spec : JobSpec F → Text) (st : RemoteSettings) (environ : Environ)
        (job_id : Text) (spec : JobSpec F) (host user : Text) (key : Option Text)
        → Steady (deploy hosts dump_spec st environ job_id spec host user key)
    unfolding deploy send_snapshot
    deploy-Steady dump_spec st environ job_id spec host user key =
        let dir = st.remote_work_root ++ codes "/" ++ job_id in
        let name = codes "signal-job-" ++ take 8 job_id in
        let secrets = secret_env_from_spec environ spec in
        let image = image_for_producer st spec.producer in
        bind-Steady
          {k = settle (started hosts st host user spec.runner_target.ssh_key_ref name dir image)}
          (bind-Steady
            (bind-Steady
              (bind-Steady
                (bind-Steady
                  (choose-Steady st.run_host_provision (ensure_host_ready-Steady st)
                    (pure-Steady tt))
                  (λ _. run-Steady _ []))
                (λ _. write_text-Steady _ _))
              (λ _. at_state-Steady (λ s.
                send_from-Steady (snapshot_at hosts st.data_snapshots_dir spec.data_snapshot) user
                  host dir (key_path hosts key s.world) st.ssh_port)))
            (λ _. run-Steady (run_cmd st name dir image (map (λ kv. kv.0) secrets)) secrets))
          (λ r. record { opens = λ s. refl; closes = λ s. refl })
