-- ===== src/Paper/Ports.antt =====
-- packages/papertrade/src/signal_papertrade/ports.py: what the simulated account asks of the market
-- data. The composition root injects an implementation.
use signal_lab.Common.{ℕ, Option, List}
use signal_lab.Common.Text.{Text}

pub record PriceReader (F : Type 0) : Type 0 where
  -- (open, close)
  pub get_open_close : Text → ℕ → Option (F × F)
  pub get_prev_close : Text → ℕ → Option F
  pub list_trade_dates : ℕ → ℕ → List ℕ
