-- ===== src/Research/Ports.antt =====
-- What the research service is given: the provisioners that start and look after a runner
-- (signal_research/provisioners.py), the market data (ports.py), the decoder of JSON, and its settings.
use signal_lab.Common.{ℕ, Bool, Option, List, Result}
use signal_lab.Common.Int.{ℤ}
use signal_lab.Common.Text.{Text}
use signal_lab.Contracts.Events.{RunnerEvent, CompletionReport, Hmac}
use signal_lab.Contracts.Job.{JobSpec}
use signal_lab.Contracts.Package.{Manifest}
use signal_lab.Research.Models.{Runtime}

-- `Provisioner`, over the world `E` of processes and hosts; an exception is its text.
pub record Provisioner (F E : Type 0) : Type 0 where
  pub start : ℕ → JobSpec F → E → Result Text Runtime × E
  pub is_alive : Runtime → E → Result Text Bool × E
  pub cleanup : Runtime → E → Result Text Unit × E
  pub fetch_events_jsonl : Runtime → E → Result Text (Option Text) × E

-- `_default_local_provisioner` by producer, `_default_docker_provisioner` and
-- `_default_remote_provisioner`.
pub record Provisioners (F E : Type 0) : Type 0 where
  pub local_process : Text → Provisioner F E
  pub docker : Provisioner F E
  pub remote : Provisioner F E

pub record Bar (F : Type 0) : Type 0 where
  pub trade_date : ℕ
  pub open_price : F
  pub high : F
  pub low : F
  pub close : F
  pub volume : F

-- `MarketBarsPort`: an empty frame is the empty list.
pub record MarketBarsPort (F : Type 0) : Type 0 where
  pub get_qfq_bars : Text → ℕ → ℕ → List (Bar F)
  pub list_universe_symbols : Text → ℕ → List Text

-- json, zipfile and pydantic, over the type `J` of JSON values. `none` is a value that the decoder
-- or the model refuses.
pub record Decoders (F J : Type 0) : Type 0 where
  pub hmac : Hmac
  pub event_of_body : Text → Option (RunnerEvent F)
  pub report_of_body : Text → Option (CompletionReport F)
  pub json_loads : Text → Option J
  -- `key in value`, which raises unless the value is an object, an array or a text
  pub has_key : Text → J → Result Text Bool
  pub is_object : J → Bool
  pub event_of_json : J → Option (RunnerEvent F)
  -- The manifest of an archive, or `none` if it has none; an exception is its text.
  pub read_manifest : Text → Result Text (Option J)
  pub manifest_of_json : J → Option (Manifest F)

-- `ResearchSettings`, as far as the service reads it.
pub record ResearchSettings (F : Type 0) : Type 0 where
  pub callback_base_host : Text
  pub hmac_secret_env : Text
  pub llm_api_key_env : Text
  pub llm_provider : Text
  pub llm_model : Text
  pub llm_base_url : Text
  pub default_max_loops : ℤ
  pub default_max_hours : F
  pub default_max_llm_cost_usd : F
  pub heartbeat_timeout_sec : ℕ
  pub cleanup_remote_on_complete : Bool
