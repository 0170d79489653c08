-- ===== src/Research/Secret.antt =====
-- What a host is told of the secrets of a job (`start` of
-- signal_research/provisioners.py).
use signal_lab.Common.{
  ◌⊎◌, inl, inr, ◌≡◌, refl, sym, ap, ◌∙◌, Option, none, some, List, [], ◌∷◌, ◌++◌, take, Result, ok,
  err, if◌then◌else◌, ◌>>=◌, ◌>>◌, pure,
}
use signal_lab.Common.Text.{Text, codes}
use signal_lab.Contracts.Job.{JobSpec}
use signal_lab.Research.Models.{Runtime}
use signal_lab.Research.Ssh.{
  Fault, ssh_error, provision_error, other, quote, SshExecResult, Environ, Hosts, Wire, Remote,
  resolve_ssh_key, secret_env_from_spec, exported,
}
use signal_lab.Research.Remote.{
  RemoteSettings, image_for_producer, run_cmd, run, write_text, connected, refused,
  ensure_host_ready, key_path, send_snapshot, started, settle, deploy, after_connect, open_with,
  open_target, guarded, start, nonempty,
}
use signal_lab.Research.Named.{SameSet, secret_env-names}

module _ {W : Type 0} (hosts : Hosts W) where
  -- The same files were written, and the same commands run but for the variables of the session that
  -- open the last one.
  abbrev pub SameTold : Runtime → Runtime → Wire W → Wire W → Type 0
  SameTold e e' s t =
      (s.files ≡ t.files)
      × ((s.commands ≡ t.commands)
          ⊎ ((before : List Text) × (command : Text) × (s.commands
                ≡ before ++ exported e command ∷ [])
              × (t.commands ≡ before ++ exported e' command ∷ [])))

  settled :
      (k : SshExecResult → Result Fault Runtime) (r : Result Fault SshExecResult) (t s : Wire W)
      → (((λ (_ : Wire W). (r, t)) >>= settle k) s).1 ≡ t
  settled k (ok a) t s = refl
  settled k (err e) t s = refl

  module _ {c d : Text} (same : c ≡ d) (e e' : Runtime)
      (k : SshExecResult → Result Fault Runtime) where
    launched :
        (r : Result Fault (Unit {0})) (t s : Wire W)
        → SameTold e e'
            (((λ (_ : Wire W). (r, t)) >> run hosts c e >>= settle k) s).1
            (((λ (_ : Wire W). (r, t)) >> run hosts d e' >>= settle k) s).1
    launched (err x) t s = (refl, inl refl)
    launched (ok u) t s =
        let q = run hosts c e t in
        let q' = run hosts d e' t in
        let h = settled k q.0 q.1 s in
        let h' = settled k q'.0 q'.1 s in
        (
          ap (λ w. w.files) h ∙ sym (ap (λ w. w.files) h'),
          inr (
            t.commands,
            c,
            ap (λ w. w.commands) h,
            ap (λ w. w.commands) h' ∙ ap (λ x. t.commands ++ exported e' x ∷ []) (sym same),
          ),
        )

  module _ {F : Type 0} (dump_spec : JobSpec F → Text) (st : RemoteSettings) where
    deploy-told :
        (f g : Environ) (job_id : Text) (spec : JobSpec F) (host user : Text) (key : Option Text)
        (s : Wire W)
        → SameSet f g
        → SameTold
            (secret_env_from_spec f spec)
            (secret_env_from_spec g spec)
            (deploy hosts dump_spec st f job_id spec host user key s).1
            (deploy hosts dump_spec st g job_id spec host user key s).1
    unfolding deploy
    deploy-told f g job_id spec host user key s same =
        let dir = st.remote_work_root ++ codes "/" ++ job_id in
        let name = codes "signal-job-" ++ take 8 job_id in
        let image = image_for_producer st spec.producer in
        let k = started hosts st host user spec.runner_target.ssh_key_ref name dir image in
        let before =
          ((if st.run_host_provision then ensure_host_ready hosts st else pure tt)
              >> run hosts (codes "mkdir -p " ++ quote dir) []
              >> write_text hosts (dir ++ codes "/job_spec.json") (dump_spec spec)
              >> (λ s.
                  send_snapshot hosts st spec.data_snapshot user host dir
                    (key_path hosts key s.world) s))
            s in
        launched (ap (run_cmd st name dir image) (secret_env-names f g same spec))
          (secret_env_from_spec f spec) (secret_env_from_spec g spec) k before.0 before.1 s

    module _ (f g : Environ) (e e' : Runtime) (x y : Option Text → Remote W Runtime)
        (told : (key : Option Text) (s : Wire W) → SameTold e e' (x key s).1 (y key s).1) where
      opened-told :
          (key : Option Text) (r : Result Fault Unit × W) (s : Wire W)
          → (let (q, t) = connected hosts r s in
              SameTold e e'
                (after_connect hosts dump_spec st f
                  (refused hosts q)
                  (guarded hosts dump_spec st f (x key))
                  t).1
                (after_connect hosts dump_spec st g
                  (refused hosts q)
                  (guarded hosts dump_spec st g (y key))
                  t).1)
      opened-told key (ok u, w) s = told key (connected hosts (ok u, w) s).1
      opened-told key (err (ssh_error m), w) s = (refl, inl refl)
      opened-told key (err (provision_error m), w) s = (refl, inl refl)
      opened-told key (err (other m), w) s = (refl, inl refl)

      open_with-told :
          (host user : Text) (key : Result Fault (Option Text)) (s : Wire W)
          → SameTold e e'
              (open_with hosts dump_spec st f host user key
                (λ key. guarded hosts dump_spec st f (x key))
                s).1
              (open_with hosts dump_spec st g host user key
                (λ key. guarded hosts dump_spec st g (y key))
                s).1
      open_with-told host user (err m) s = (refl, inl refl)
      open_with-told host user (ok key) s =
          opened-told key (hosts.connect host user key st.ssh_port s.world) s

    -- The values of the secrets of a job stand in no file that `start` writes on a host, and in no
    -- command but the last, and there only in the exports that open it: in any two environments that
    -- set the same variables and resolve the key of the connection alike, the files are the same, and
    -- so are the commands up to those exports, whatever the host answers.
    pub secrets_stay :
        (f g : Environ) (job_id : Text) (spec : JobSpec F) (s : Wire W)
        → SameSet f g
        → resolve_ssh_key f spec.runner_target.ssh_key_ref
          ≡ resolve_ssh_key g spec.runner_target.ssh_key_ref
        → SameTold
            (secret_env_from_spec f spec)
            (secret_env_from_spec g spec)
            (start hosts dump_spec st f job_id spec s).1
            (start hosts dump_spec st g job_id spec s).1
    unfolding start
    secrets_stay f g job_id spec s same alike =
        at (nonempty spec.runner_target.host) (nonempty spec.runner_target.user)
      where
        at :
            (host user : Option Text)
            → SameTold
                (secret_env_from_spec f spec)
                (secret_env_from_spec g spec)
                (open_target hosts dump_spec st f host user spec.runner_target.ssh_key_ref
                  (λ host user key.
                    guarded hosts dump_spec st f
                      (deploy hosts dump_spec st f job_id spec host user key))
                  s).1
                (open_target hosts dump_spec st g host user spec.runner_target.ssh_key_ref
                  (λ host user key.
                    guarded hosts dump_spec st g
                      (deploy hosts dump_spec st g job_id spec host user key))
                  s).1
        at none user = (refl, inl refl)
        at (some host) none = (refl, inl refl)
        at (some host) (some user) = rw alike (
            open_with-told f g (secret_env_from_spec f spec) (secret_env_from_spec g spec)
              (deploy hosts dump_spec st f job_id spec host user)
              (deploy hosts dump_spec st g job_id spec host user)
              (λ key t. deploy-told f g job_id spec host user key t same) host user
              (resolve_ssh_key g spec.runner_target.ssh_key_ref) s)
