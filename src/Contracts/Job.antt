-- ===== src/Contracts/Job.antt =====
-- packages/contracts/src/signal_contracts/research_job.py: the specification of a research job, and
-- what its validators refuse. `none` is a ValidationError.
use signal_lab.Common.{
  ℕ, Bool, true, false, ◌&&◌, ◌||◌, ◌==◌, leb, Option, none, some, [], ◌∷◌, if◌then◌else◌, Result,
  ok, err,
}
use signal_lab.Common.Int.{ℤ, pos, ltb_ℤ, leb_ℤ}
use signal_lab.Common.Text.{Text, codes, is_digit, remove_prefix}
use signal_lab.Common.Float.{Floats}

abbrev pub is_upper : ℕ → Bool
is_upper c = leb b'A' c && leb c b'Z'

abbrev is_nil : Text → Bool
is_nil [] = true
is_nil (c ∷ s) = false

-- `[A-Z0-9_]*$`: the end of the pattern also stands before a final newline.
unfoldable pub is_var_rest : Text → Bool
is_var_rest [] = true
is_var_rest (c ∷ s) =
    (is_upper c || is_digit c || c == b'_') && is_var_rest s || c == 10 && is_nil s

abbrev is_var : Text → Bool
is_var [] = false
is_var (c ∷ s) = is_upper c && is_var_rest s

-- `_KEY_REF_RE.match`, for `^env:[A-Z][A-Z0-9_]*$`.
unfoldable pub is_key_ref : Text → Bool
unfolding is_var_rest
is_key_ref (e ∷ n ∷ v ∷ c ∷ var) =
    (e == b'e') && (n == b'n') && (v == b'v') && (c == b':') && is_var var
is_key_ref _ = false

pub data KeyRefError : Type 0 where
  -- ValueError and KeyError
  bad_key_ref unset_variable : KeyRefError

-- `value = os.environ.get(var)`, and `if not value`.
abbrev value_of : Option Text → Result KeyRefError Text
value_of none = err unset_variable
value_of (some []) = err unset_variable
value_of (some (c ∷ s)) = ok (c ∷ s)

-- The environment is an argument.
unfoldable pub resolve_key_ref : (Text → Option Text) → Text → Result KeyRefError Text
unfolding is_key_ref
resolve_key_ref environ key_ref =
    if is_key_ref key_ref
    then value_of (environ (remove_prefix (codes "env:") key_ref))
    else err bad_key_ref

pub data TargetType : Type 0 where
  local_docker remote_ssh : TargetType

pub record RunnerTarget : Type 0 where
  pub type : TargetType
  pub host : Option Text
  pub user : Option Text
  pub ssh_key_ref : Option Text

-- `self.host and self.user`
abbrev pub is_given : Option Text → Bool
is_given none = false
is_given (some []) = false
is_given (some (c ∷ s)) = true

abbrev pub key_ref_or_none : Option Text → Bool
key_ref_or_none none = true
key_ref_or_none (some r) = is_key_ref r

abbrev pub remote_is_complete : RunnerTarget → Bool
remote_is_complete t = elim t.type [
  | local_docker ↦ true
  | remote_ssh ↦ is_given t.host && is_given t.user
]

unfoldable pub make_target : RunnerTarget → Option RunnerTarget
unfolding is_key_ref
make_target t = if key_ref_or_none t.ssh_key_ref && remote_is_complete t then some t else none

pub record LlmConfig : Type 0 where
  pub provider : Text
  pub model : Text
  pub base_url : Option Text
  pub api_key_ref : Text

unfoldable pub make_llm : LlmConfig → Option LlmConfig
unfolding is_key_ref
make_llm c = if is_key_ref c.api_key_ref then some c else none

pub record Budget (F : Type 0) : Type 0 where
  pub max_loops : ℤ
  pub max_hours : F
  pub max_llm_cost_usd : F

module _ {F : Type 0} ⦃fl : Floats F⦄ where
  -- `gt=0, le=n`
  abbrev pub within : ℕ → F → Bool
  within n x = fl.lt (fl.lit 0 0) x && fl.le x (fl.lit n 0)

  unfoldable pub make_budget : Budget F → Option (Budget F)
  make_budget b =
      if ltb_ℤ (pos 0) b.max_loops
        && leb_ℤ b.max_loops (pos 200)
        && within 72 b.max_hours
        && within 200 b.max_llm_cost_usd
      then some b
      else none

pub record CallbackConfig : Type 0 where
  pub base_url : Text
  pub hmac_key_ref : Text

unfoldable pub make_callback : CallbackConfig → Option CallbackConfig
unfolding is_key_ref
make_callback c = if is_key_ref c.hmac_key_ref then some c else none

pub data UploadType : Type 0 where
  http_put scp : UploadType

pub record ArtifactUpload : Type 0 where
  pub type : UploadType
  pub url : Text

-- `ResearchJobSpec`, without its `schema_version`.
pub record JobSpec (F : Type 0) : Type 0 where
  pub job_id : ℕ
  pub producer : Text
  pub scenario : Text
  pub runner_target : RunnerTarget
  pub llm : LlmConfig
  pub budget : Budget F
  pub data_snapshot : Text
  pub callback : CallbackConfig
  pub artifact_upload : ArtifactUpload
