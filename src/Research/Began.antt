-- ===== src/Research/Began.antt =====
-- What `start` returns, where it returns (signal_research/provisioners.py).
use signal_lab.Common.{
  ◌≡◌, refl, sym, ap, ◌∙◌, Bool, true, false, Option, none, some, [], ◌∷◌, ◌++◌, map, take, Result,
  ok, err, if◌then◌else◌, ◌>>=◌, ◌>>◌, pure, arith,
}
use signal_lab.Common.Text.{Text, codes, strip, splitlines}
use signal_lab.Contracts.Job.{JobSpec}
use signal_lab.Research.Models.{Runtime}
use signal_lab.Research.Ssh.{
  Fault, ssh_error, provision_error, other, SshExecResult, Environ, Hosts, Wire, resolve_ssh_key,
  quote, secret_env_from_spec,
}
use signal_lab.Research.Remote.{
  RemoteSettings, image_for_producer, run_cmd, run, write_text, connected, refused, succeeds,
  last_line, recast, settle, runtime_of, ensure_host_ready, key_path, send_snapshot, started,
  deploy, after_connect, open_with, open_target, guarded, start, nonempty,
}

pub nonempty-some :
    (a : Option Text) (x : Text) → nonempty a ≡ some x → (a ≡ some x) × (nonempty (some x) ≡ some x)
nonempty-some none x e = absurd (ground (arith, e))
nonempty-some (some []) x e = absurd (ground (arith, e))
nonempty-some (some (c ∷ s)) x e = (e, ap nonempty (sym e) ∙ e)

recast-ok : {A : Type 0} (r : Result Fault A) (a : A) → recast r ≡ ok a → r ≡ ok a
recast-ok (ok x) a e = e
recast-ok (err (ssh_error x)) a e = absurd (ground (arith, e))
recast-ok (err (provision_error x)) a e = absurd (ground (arith, e))
recast-ok (err (other x)) a e = absurd (ground (arith, e))

if-ok :
    {A : Type 0} (b : Bool) (r : Result Fault A) (x : Fault) (a : A)
    → (if b then r else err x) ≡ ok a
    → r ≡ ok a
if-ok true r x a e = e
if-ok false r x a e = absurd (ground (arith, e))

line-ok :
    {A : Type 0} (l : Option Text) (x : Fault) (k : Text → A) (a : A)
    → (elim l as (λ _. Result Fault A) [ none ↦ err x | some c ↦ ok (k c) ]) ≡ ok a
    → (c : Text) × (a ≡ k c)
line-ok none x k a e = absurd (ground (arith, e))
line-ok (some c) x k a e = (c, ap (λ r. elim r [ ok y ↦ y | err z ↦ k c ]) (sym e))

module _ {W : Type 0} (hosts : Hosts W) where
  settle-ok :
      {A B : Type 0} (k : A → Result Fault B) (r : Result Fault A) (t s : Wire W) (b : B)
      → (((λ (_ : Wire W). (r, t)) >>= settle k) s).0 ≡ ok b
      → (a : A) × (k a ≡ ok b)
  settle-ok k (ok a) t s b e = (a, e)
  settle-ok k (err x) t s b e = absurd (ground (arith, e))

  started-ok :
      (st : RemoteSettings) (host user : Text) (key_ref : Option Text) (name dir image : Text)
      (r : SshExecResult) (runtime : Runtime)
      → started hosts st host user key_ref name dir image r ≡ ok runtime
      → (cid : Text) × (runtime ≡ runtime_of hosts st host user key_ref cid name dir image)
  started-ok st host user key_ref name dir image r runtime e =
      let (c, h) =
        line-ok (last_line (splitlines (strip r.stdout))) _
          (λ l. runtime_of hosts st host user key_ref (strip l) name dir image) runtime
          (if-ok (succeeds hosts r) _ _ runtime e) in
      (strip c, h)

  module _ {F : Type 0} (dump_spec : JobSpec F → Text) (st : RemoteSettings) (environ : Environ)
      (job_id : Text) (spec : JobSpec F) where
    -- The container of the job was started on the host that its specification names.
    pub record Began (runtime : Runtime) : Type 0 where
      pub host : Text
      pub user : Text
      pub key : Option Text
      pub container_id : Text
      pub at_host : nonempty spec.runner_target.host ≡ some host
      pub by_user : nonempty spec.runner_target.user ≡ some user
      pub by_key : resolve_ssh_key environ spec.runner_target.ssh_key_ref ≡ ok key
      pub is_runtime :
          runtime
          ≡ runtime_of hosts st host user spec.runner_target.ssh_key_ref container_id
              (codes "signal-job-" ++ take 8 job_id)
              (st.remote_work_root ++ codes "/" ++ job_id)
              (image_for_producer st spec.producer)

    deploy-ok :
        (host user : Text) (key : Option Text) (runtime : Runtime) (s : Wire W)
        → (deploy hosts dump_spec st environ job_id spec host user key s).0 ≡ ok runtime
        → (cid : Text) × (runtime
            ≡ runtime_of hosts st host user spec.runner_target.ssh_key_ref cid
                (codes "signal-job-" ++ take 8 job_id)
                (st.remote_work_root ++ codes "/" ++ job_id)
                (image_for_producer st spec.producer))
    unfolding deploy
    deploy-ok host user key runtime s e =
        let dir = st.remote_work_root ++ codes "/" ++ job_id in
        let name = codes "signal-job-" ++ take 8 job_id in
        let image = image_for_producer st spec.producer in
        let secrets = secret_env_from_spec environ spec in
        let before =
          ((if st.run_host_provision then ensure_host_ready hosts st else pure tt)
              >> run hosts (codes "mkdir -p " ++ quote dir) []
              >> write_text hosts (dir ++ codes "/job_spec.json") (dump_spec spec)
              >> (λ s.
                  send_snapshot hosts st spec.data_snapshot user host dir
                    (key_path hosts key s.world) s)
              >> run hosts (run_cmd st name dir image (map (λ kv. kv.0) secrets)) secrets)
            s in
        let key_ref = spec.runner_target.ssh_key_ref in
        let (r, h) =
          settle-ok (started hosts st host user key_ref name dir image) before.0 before.1 s runtime
            e in
        started-ok st host user key_ref name dir image r runtime h

    after_connect-ok :
        (host user : Text) (key : Option Text) (runtime : Runtime) (r : Result Fault Unit × W)
        (s : Wire W)
        → (let (q, t) = connected hosts r s in
            (after_connect hosts dump_spec st environ
              (refused hosts q)
              (guarded hosts dump_spec st environ
                (deploy hosts dump_spec st environ job_id spec host user key))
              t).0)
          ≡ ok runtime
        → (t : Wire W) × ((deploy hosts dump_spec st environ job_id spec host user key t).0
            ≡ ok runtime)
    after_connect-ok host user key runtime (ok u, w) s e =
        let t = (connected hosts (ok u, w) s).1 in
        (t, recast-ok (deploy hosts dump_spec st environ job_id spec host user key t).0 runtime e)
    after_connect-ok host user key runtime (err (ssh_error x), w) s e = absurd (ground (arith, e))
    after_connect-ok host user key runtime (err (provision_error x), w) s e =
        absurd (ground (arith, e))
    after_connect-ok host user key runtime (err (other x), w) s e = absurd (ground (arith, e))

    open_with-ok :
        (host user : Text) (key : Result Fault (Option Text)) (runtime : Runtime) (s : Wire W)
        → (open_with hosts dump_spec st environ host user key
            (λ key.
              guarded hosts dump_spec st environ
                (deploy hosts dump_spec st environ job_id spec host user key))
            s).0
          ≡ ok runtime
        → (k : Option Text) × (t : Wire W) × (key ≡ ok k)
          × ((deploy hosts dump_spec st environ job_id spec host user k t).0 ≡ ok runtime)
    open_with-ok host user (err x) runtime s e = absurd (ground (arith, e))
    open_with-ok host user (ok key) runtime s e =
        let (t, h) =
          after_connect-ok host user key runtime (hosts.connect host user key st.ssh_port s.world) s
            e in
        (key, t, refl, h)

    open_target-Began :
        (host user : Option Text) (runtime : Runtime) (s : Wire W)
        → nonempty spec.runner_target.host ≡ host
        → nonempty spec.runner_target.user ≡ user
        → (open_target hosts dump_spec st environ host user spec.runner_target.ssh_key_ref
            (λ host user key.
              guarded hosts dump_spec st environ
                (deploy hosts dump_spec st environ job_id spec host user key))
            s).0
          ≡ ok runtime
        → Began runtime
    open_target-Began none user runtime s a b e = absurd (ground (arith, e))
    open_target-Began (some host) none runtime s a b e = absurd (ground (arith, e))
    open_target-Began (some host) (some user) runtime s a b e =
        let (key, t, c, d) =
          open_with-ok host user (resolve_ssh_key environ spec.runner_target.ssh_key_ref) runtime s
            e in
        let (cid, h) = deploy-ok host user key runtime t d in
        record {
          host = host;
          user = user;
          key = key;
          container_id = cid;
          at_host = a;
          by_user = b;
          by_key = c;
          is_runtime = h;
        }

    pub start-Began :
        (runtime : Runtime) (s : Wire W)
        → (start hosts dump_spec st environ job_id spec s).0 ≡ ok runtime
        → Began runtime
    unfolding start
    start-Began runtime s e =
        open_target-Began (nonempty spec.runner_target.host) (nonempty spec.runner_target.user)
          runtime s refl refl e
