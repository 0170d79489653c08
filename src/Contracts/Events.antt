-- ===== src/Contracts/Events.antt =====
-- packages/contracts/src/signal_contracts/runner_events.py: the reports of a runner and their
-- signature. `schema_version` and the free form `summary` are left out.
use signal_lab.Common.{ℕ, Bool, Option}
use signal_lab.Common.Int.{ℤ}
use signal_lab.Common.Text.{Text, text_eq}

pub data RunnerEventType : Type 0 where
  started heartbeat loop_done error : RunnerEventType

pub record RunnerEvent (F : Type 0) : Type 0 where
  pub job_id : ℕ
  pub type : RunnerEventType
  pub ts : ℕ
  pub seq : ℕ
  pub loop : Option ℤ
  pub best_ic : Option F
  pub llm_cost_usd : Option F
  pub message : Option Text

pub data CompletionStatus : Type 0 where
  succeeded failed budget_exceeded : CompletionStatus

pub record CompletionReport (F : Type 0) : Type 0 where
  pub job_id : ℕ
  pub status : CompletionStatus
  pub package_id : Option ℕ
  pub total_loops : ℤ
  pub total_llm_cost_usd : F

-- HMAC-SHA256 as hexadecimal digits, of a secret and a body.
abbrev pub Hmac : Type 0
Hmac = Text → Text → Text

unfoldable pub sign_payload : Hmac → Text → Text → Text
sign_payload hmac secret body = hmac secret body

unfoldable pub verify_signature : Hmac → Text → Text → Text → Bool
unfolding sign_payload
verify_signature hmac secret body signature = text_eq (sign_payload hmac secret body) signature
