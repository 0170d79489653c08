-- ===== src/Research/Named.antt =====
-- The names in the environment of a session, without its values (`_secret_env_from_spec` of
-- signal_research/provisioners.py).
use signal_lab.Common.{
  ◌≡◌, refl, ap, ◌∙◌, Bool-cases, inl, inr, Option, none, some, List, [], ◌∷◌, map, if◌then◌else◌,
}
use signal_lab.Common.Text.{Text, codes, text_eq, starts_with, remove_prefix}
use signal_lab.Contracts.Job.{JobSpec}
use signal_lab.Research.Models.{Runtime}
use signal_lab.Research.Repo.{put}
use signal_lab.Research.Ssh.{
  Environ, given, put_given, add_ref, setdefault, default_given, secret_env_from_spec,
}

abbrev pub names : Runtime → List Text
names env = map (λ kv. kv.0) env

-- The names, after a value was put under the key.
put_name : Text → List Text → List Text
put_name key [] = key ∷ []
put_name key (k ∷ ks) = if text_eq k key then k ∷ ks else k ∷ put_name key ks

put-names : (key v : Text) (env : Runtime) → names (put key v env) ≡ put_name key (names env)
unfolding put put_name
put-names key v [] = refl
put-names key v ((k, w) ∷ env) = elim (Bool-cases (text_eq k key)) [
  | inl e ↦ simp e
  | inr e ↦ simp (e, put-names key v env)
]

setdefault-names :
    (key v : Text) (env : Runtime) → names (setdefault key v env) ≡ put_name key (names env)
unfolding setdefault put_name
setdefault-names key v [] = refl
setdefault-names key v ((k, w) ∷ env) = elim (Bool-cases (text_eq k key)) [
  | inl e ↦ simp e
  | inr e ↦ simp (e, setdefault-names key v env)
]

put_given-names :
    (var : Text) (a : Option Text) (env : Runtime)
    → names (put_given var a env) ≡ (if given a then put_name var (names env) else names env)
put_given-names var none env = refl
put_given-names var (some []) env = refl
put_given-names var (some (c ∷ s)) env = put-names var (c ∷ s) env

put_names : List Text → List Text → List Text
put_names [] ks = ks
put_names (key ∷ keys) ks = put_names keys (put_name key ks)

default_given-names :
    (keys : List Text) (a : Option Text) (env : Runtime)
    → names (default_given keys a env) ≡ (if given a then put_names keys (names env) else names env)
unfolding put_names
default_given-names keys none env = refl
default_given-names keys (some []) env = refl
default_given-names [] (some (c ∷ s)) env = refl
default_given-names (key ∷ keys) (some (c ∷ s)) env =
    default_given-names keys (some (c ∷ s)) (setdefault key (c ∷ s) env)
    ∙ ap (put_names keys) (setdefault-names key (c ∷ s) env)

-- Two environments in which the same variables are set.
abbrev pub SameSet : Environ → Environ → Type 0
SameSet f g = (var : Text) → given (f var) ≡ given (g var)

module _ (f g : Environ) (same : SameSet f g) where
  add_ref-names :
      (ref : Text) (c d : Runtime)
      → names c ≡ names d
      → names (add_ref f ref c) ≡ names (add_ref g ref d)
  unfolding add_ref
  add_ref-names ref c d h = elim (Bool-cases (starts_with ref (codes "env:"))) [
    | inl e ↦
        let var = remove_prefix (codes "env:") ref in
        simp (e, put_given-names var (f var) c, put_given-names var (g var) d, same var, h)
    | inr e ↦ simp (e, h)
  ]

  default-names :
      (keys : List Text) (var : Text) (c d : Runtime)
      → names c ≡ names d
      → names (default_given keys (f var) c) ≡ names (default_given keys (g var) d)
  default-names keys var c d h =
      simp (default_given-names keys (f var) c, default_given-names keys (g var) d, same var, h)

  pub secret_env-names :
      {F : Type 0} (spec : JobSpec F)
      → names (secret_env_from_spec f spec) ≡ names (secret_env_from_spec g spec)
  unfolding secret_env_from_spec
  secret_env-names spec =
      let llm = spec.llm.api_key_ref in
      let hmac = spec.callback.hmac_key_ref in
      let key = codes "LLM_API_KEY" in
      let secret = codes "RUNNER_CALLBACK_SECRET" in
      default-names (secret ∷ codes "CALLBACK_HMAC_SECRET" ∷ []) secret _ _
        (default-names (key ∷ []) key _ _ (add_ref-names hmac _ _ (add_ref-names llm [] [] refl)))
