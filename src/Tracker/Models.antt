-- ===== src/Tracker/Models.antt =====
-- packages/tracker/src/signal_tracker/models.py, and `ExtractedRec` of extract.py.
use signal_lab.Common.{ℕ, Bool, Option}
use signal_lab.Common.Text.{Text}

pub data Action : Type 0 where
  buy sell hold watch : Action

pub data Confidence : Type 0 where
  explicit mention review : Confidence

pub data Horizon : Type 0 where
  short mid long : Horizon

pub data Status : Type 0 where
  pending active ignored : Status

-- The value of `baseline_rule`.
pub data Rule : Type 0 where
  close_same_day open_next_day : Rule

pub record Source : Type 0 where
  pub id : ℕ
  pub name : Text
  pub channel : Text
  pub notes : Text
  pub created_at : ℕ

pub record ExtractedRec (F : Type 0) : Type 0 where
  pub symbol_name : Text
  pub action : Action
  pub confidence : Confidence
  pub target_price : Option F
  pub stop_loss : Option F
  pub horizon : Horizon
  pub reason : Text

pub record Recommendation (F : Type 0) : Type 0 where
  pub id : ℕ
  pub source_id : ℕ
  pub message_time : ℕ
  pub symbol : Option Text
  pub symbol_name : Text
  pub action : Action
  pub target_price : Option F
  pub stop_loss : Option F
  pub horizon : Horizon
  pub confidence : Confidence
  pub reason : Text
  pub raw_text : Text
  pub status : Status
  pub baseline_date : Option ℕ
  pub baseline_price : Option F
  pub baseline_rule : Option Rule
  pub created_at : ℕ

-- `WindowPerf` of event_study.py, which the columns of a row repeat.
pub record WindowPerf (F : Type 0) : Type 0 where
  pub window_days : ℕ
  pub abs_return : Option F
  pub excess_return : Option F
  pub max_drawdown : Option F
  pub max_runup : Option F
  pub hit_target_first : Option Bool
  pub hit_stop_first : Option Bool
  pub as_of_date : Option ℕ

pub record RecPerformance (F : Type 0) : Type 0 where
  pub id : ℕ
  pub recommendation_id : ℕ
  pub perf : WindowPerf F
  pub updated_at : ℕ
