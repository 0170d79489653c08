-- ===== src/Live/Models.antt =====
-- packages/live/src/signal_live/models.py. Identifiers are only compared and times only stored,
-- so both are numbers. The column `extra`, which the service leaves empty, is left out.
use signal_lab.Common.{ℕ, Option}
use signal_lab.Common.Int.{ℤ}
use signal_lab.Common.Text.{Text, codes}

-- The values that the comment on the column `status` names, and `failed`.
pub data Status : Type 0 where
  pending_confirm confirmed rejected cancelled submitted failed : Status

-- The text of the column.
unfoldable pub status_name : Status → Text
status_name pending_confirm = codes "pending_confirm"
status_name confirmed = codes "confirmed"
status_name rejected = codes "rejected"
status_name cancelled = codes "cancelled"
status_name submitted = codes "submitted"
status_name failed = codes "failed"

pub record LiveIntent (F : Type 0) : Type 0 where
  pub id : ℕ
  pub symbol : Text
  pub side : Text
  pub quantity : ℤ
  pub status : Status
  pub source : Text
  pub signal_id : Option ℕ
  pub note : Text
  pub broker : Text
  pub broker_order_id : Option Text
  pub limit_price : Option F
  pub error : Text
  pub created_at : ℕ
  pub decided_at : Option ℕ
  pub submitted_at : Option ℕ
