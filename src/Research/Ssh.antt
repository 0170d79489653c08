-- ===== src/Research/Ssh.antt =====
-- packages/research/src/signal_research/ssh_ops.py and provisioners.py: a connection to a host, the
-- key that opens it, and the environment of a session.
use signal_lab.Common.{
  ℕ, Bool, true, false, ◌&&◌, ◌||◌, leb, ◌==◌, Option, none, some, List, [], ◌∷◌, ◌++◌,
  if◌then◌else◌, Result, ok, err, Exec,
}
use signal_lab.Common.Int.{ℤ}
use signal_lab.Common.Text.{Text, codes, text_eq, starts_with, remove_prefix, is_digit}
use signal_lab.Contracts.Job.{JobSpec}
use signal_lab.Research.Models.{Runtime}
use signal_lab.Research.Repo.{put}

-- An SshError, a ProvisionError, or another exception.
pub data Fault : Type 0 where
  ssh_error provision_error other : Text → Fault

pub record SshExecResult : Type 0 where
  pub exit_code : ℤ
  pub stdout : Text
  pub stderr : Text

-- `os.environ.get`
abbrev pub Environ : Type 0
Environ = Text → Option Text

-- paramiko, `rsync_to_remote`, and the files of the platform. A key of which `is_file` raises an
-- error makes `connect` raise it, which asks the same before.
pub record Hosts (W : Type 0) : Type 0 where
  -- host, user, key and port
  pub connect : Text → Text → Option Text → ℕ → W → Result Fault Unit × W
  -- `exec_command` of paramiko, to the end of the command
  pub exec : Text → W → Result Fault SshExecResult × W
  -- a write of a file by sftp
  pub sftp_write : Text → Text → W → Result Fault Unit × W
  pub close : W → W
  -- the local path, the user, the host, the remote path, the path of the key and the port
  pub rsync : Text → Text → Text → Text → Option Text → ℕ → W → Result Fault Unit × W
  pub exists : Text → W → Bool
  pub is_file : Text → W → Bool
  -- the script that prepares a host, if it is there
  pub provision_script : W → Option Text
  -- `str(Path(path).parent)`
  pub parent : Text → Text

-- The world, and what was done to hosts: connections, commands and files, in order.
pub record Wire (W : Type 0) : Type 0 where
  pub world : W
  pub opened : ℕ
  pub closed : ℕ
  pub commands : List Text
  pub files : List (Text × Text)

abbrev pub Remote : Type 0 → Type 0 → Type 0
Remote W A = Exec (Wire W) Fault A

abbrev pub given : Option Text → Bool
given none = false
given (some []) = false
given (some (c ∷ s)) = true

abbrev pub key_value : Text → Option Text → Result Fault (Option Text)
key_value var none = err (ssh_error (codes "not set: " ++ var))
key_value var (some []) = err (ssh_error (codes "not set: " ++ var))
key_value var (some (c ∷ s)) = ok (some (c ∷ s))

unfoldable pub resolve_ssh_key : Environ → Option Text → Result Fault (Option Text)
resolve_ssh_key environ none = ok none
resolve_ssh_key environ (some []) = ok none
resolve_ssh_key environ (some (c ∷ ref)) =
    if starts_with (c ∷ ref) (codes "env:")
    then (let var = remove_prefix (codes "env:") (c ∷ ref) in key_value var (environ var))
    else err (ssh_error (codes "bad ssh_key_ref: " ++ c ∷ ref))

-- `shlex.quote`
abbrev pub is_safe : ℕ → Bool
is_safe c =
    is_digit c
    || leb 65 c && leb c 90
    || leb 97 c && leb c 122
    || c == 95
    || c == 64
    || c == 37
    || c == 43
    || c == 61
    || c == 58
    || c == 44
    || c == 46
    || c == 47
    || c == 45

unfoldable pub all_safe : Text → Bool
all_safe [] = true
all_safe (c ∷ s) = is_safe c && all_safe s

unfoldable pub escape : Text → Text
escape [] = []
escape (c ∷ s) = if c == 39 then codes "'\"'\"'" ++ escape s else c ∷ escape s

unfoldable pub quote : Text → Text
unfolding all_safe escape
quote [] = codes "''"
quote (c ∷ s) = if all_safe (c ∷ s) then c ∷ s else codes "'" ++ escape (c ∷ s) ++ codes "'"

-- `env[var] = val`, where the environment has a value
abbrev pub put_given : Text → Option Text → Runtime → Runtime
put_given var none env = env
put_given var (some []) env = env
put_given var (some (c ∷ s)) env = put var (c ∷ s) env

unfoldable pub add_ref : Environ → Text → Runtime → Runtime
unfolding put
add_ref environ ref env =
    if starts_with ref (codes "env:")
    then (let var = remove_prefix (codes "env:") ref in put_given var (environ var) env)
    else env

unfoldable pub setdefault : Text → Text → Runtime → Runtime
setdefault key value [] = (key, value) ∷ []
setdefault key value ((k, v) ∷ env) =
    if text_eq k key then (k, v) ∷ env else (k, v) ∷ setdefault key value env

abbrev pub default_given : List Text → Option Text → Runtime → Runtime
default_given keys none env = env
default_given keys (some []) env = env
default_given [] (some (c ∷ s)) env = env
default_given (key ∷ keys) (some (c ∷ s)) env =
    default_given keys (some (c ∷ s)) (setdefault key (c ∷ s) env)

-- `_secret_env_from_spec`
unfoldable pub secret_env_from_spec : {F : Type 0} → Environ → JobSpec F → Runtime
unfolding add_ref setdefault
secret_env_from_spec environ spec =
    let refs =
      add_ref environ spec.callback.hmac_key_ref (add_ref environ spec.llm.api_key_ref []) in
    let aliased = default_given (codes "LLM_API_KEY" ∷ []) (environ (codes "LLM_API_KEY")) refs in
    default_given (codes "RUNNER_CALLBACK_SECRET" ∷ codes "CALLBACK_HMAC_SECRET" ∷ [])
      (environ (codes "RUNNER_CALLBACK_SECRET")) aliased

abbrev pub exports : Runtime → Text
exports [] = []
exports ((k, v) ∷ []) = codes "export " ++ k ++ codes "=" ++ quote v ++ codes ";"
exports ((k, v) ∷ kv ∷ env) =
    codes "export " ++ k ++ codes "=" ++ quote v ++ codes "; " ++ exports (kv ∷ env)

-- The command that `ParamikoSshTransport.run` sends: the variables of the session come before it.
unfoldable pub exported : Runtime → Text → Text
unfolding quote
exported [] command = command
exported (kv ∷ env) command = exports (kv ∷ env) ++ codes " " ++ command
