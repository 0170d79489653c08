-- ===== src/Live/Repo.antt =====
-- packages/live/src/signal_live/repo.py. The table is the list of its rows, oldest first.
-- `utcnow()` is the argument `now`, and the fresh uuid of a new row the argument `id`.
use signal_lab.Common.{ℕ, Option, none, some, List, [], ◌∷◌, ◌==◌, if◌then◌else◌, take, select}
use signal_lab.Common.Int.{ℤ}
use signal_lab.Common.Text.{Text, text_eq}
use signal_lab.Live.Models.{
  LiveIntent, status_name, pending_confirm, rejected, cancelled, submitted, failed,
}
use mathlib.Core.List.{reverse}

-- What the caller of `create_intent` chooses.
pub record Draft (F : Type 0) : Type 0 where
  pub symbol : Text
  pub side : Text
  pub quantity : ℤ
  pub source : Text
  pub signal_id : Option ℕ
  pub note : Text
  pub limit_price : Option F

module _ {F : Type 0} where
  unfoldable pub new_intent : ℕ → ℕ → Text → Draft F → LiveIntent F
  new_intent id now broker d = record {
    id = id;
    symbol = d.symbol;
    side = d.side;
    quantity = d.quantity;
    status = pending_confirm;
    source = d.source;
    signal_id = d.signal_id;
    note = d.note;
    broker = broker;
    broker_order_id = none;
    limit_price = d.limit_price;
    error = [];
    created_at = now;
    decided_at = none;
    submitted_at = none;
  }

  -- `session.get(LiveIntent, intent_id)`
  unfoldable pub get_intent : ℕ → List (LiveIntent F) → Option (LiveIntent F)
  get_intent id [] = none
  get_intent id (i ∷ rows) = if i.id == id then some i else get_intent id rows

  -- The flush of a changed object: its row, found by the primary key, takes the new values.
  unfoldable pub flush : LiveIntent F → List (LiveIntent F) → List (LiveIntent F)
  flush i [] = []
  flush i (j ∷ rows) = if j.id == i.id then i ∷ rows else j ∷ flush i rows

  unfoldable pub mark_rejected : ℕ → LiveIntent F → Text → LiveIntent F
  mark_rejected now i reason = record i { status = rejected; error = reason; decided_at = some now }

  unfoldable pub mark_cancelled : ℕ → LiveIntent F → Text → LiveIntent F
  mark_cancelled now i reason = record i {
    status = cancelled;
    error = reason;
    decided_at = some now;
  }

  unfoldable pub mark_submitted : ℕ → LiveIntent F → Text → LiveIntent F
  mark_submitted now i order_id = record i {
    status = submitted;
    broker_order_id = some order_id;
    decided_at = some now;
    submitted_at = some now;
  }

  -- `error[:2000]`
  unfoldable pub mark_failed : ℕ → LiveIntent F → Text → LiveIntent F
  mark_failed now i message = record i {
    status = failed;
    error = take 2000 message;
    decided_at = some now;
  }

  -- Newest first: the rows stand in the order of their creation. An empty status is no filter.
  pub list_intents : Option Text → ℕ → List (LiveIntent F) → List (LiveIntent F)
  list_intents (some (c ∷ s)) limit rows =
      take limit (select (λ i. text_eq (status_name i.status) (c ∷ s)) (reverse rows))
  list_intents _ limit rows = take limit (reverse rows)
