-- ===== src/Paper/Models.antt =====
-- packages/papertrade/src/signal_papertrade/models.py. Identifiers are only compared, so they are
-- numbers; a time is in seconds and a date in days. `updated_at` of a position is left out.
use signal_lab.Common.{ℕ, Option, List}
use signal_lab.Common.Int.{ℤ}
use signal_lab.Common.Text.{Text}
use signal_lab.Common.Float.{Floats}

pub record Account (F : Type 0) : Type 0 where
  pub id : ℕ
  pub name : Text
  pub cash : F
  pub initial_cash : F
  pub commission_rate : F
  pub commission_min : F
  pub stamp_tax_rate : F
  pub slippage_bps : F
  pub lot_size : ℕ
  pub status : Text
  pub created_at : ℕ

-- The columns of an account that have a default, and the defaults.
pub record Fees (F : Type 0) : Type 0 where
  pub commission_rate : F
  pub commission_min : F
  pub stamp_tax_rate : F
  pub slippage_bps : F
  pub lot_size : ℕ

abbrev pub default_fees : {F : Type 0} → ⦃fl : Floats F⦄ → Fees F
default_fees ⦃fl = fl⦄ = record {
  commission_rate = fl.lit 25 5;
  commission_min = fl.lit 5 0;
  stamp_tax_rate = fl.lit 5 4;
  slippage_bps = fl.lit 5 0;
  lot_size = 100;
}

pub data OrderStatus : Type 0 where
  pending filled rejected cancelled : OrderStatus

-- The texts of `reject_reason`.
pub data Reason : Type 0 where
  -- 无行情, 无效开盘价, 现金不足, 持仓不足, 涨停无法买入, 跌停无法卖出
  no_quote bad_open short_cash short_position limit_up limit_down : Reason

pub record Order (F : Type 0) : Type 0 where
  pub id : ℕ
  pub account_id : ℕ
  pub symbol : Text
  pub side : Text
  pub quantity : ℤ
  pub status : OrderStatus
  pub source : Text
  pub note : Text
  pub submitted_at : ℕ
  pub fill_date : Option ℕ
  pub fill_price : Option F
  pub fill_amount : Option F
  pub commission : Option F
  pub reject_reason : Option Reason

pub record Position (F : Type 0) : Type 0 where
  pub account_id : ℕ
  pub symbol : Text
  pub quantity : ℤ
  pub avg_cost : F

pub record NavPoint (F : Type 0) : Type 0 where
  pub account_id : ℕ
  pub trade_date : ℕ
  pub cash : F
  pub market_value : F
  pub nav : F
  pub bench_nav : Option F

-- The tables, each in the order of insertion.
pub record Db (F : Type 0) : Type 0 where
  pub accounts : List (Account F)
  pub orders : List (Order F)
  pub positions : List (Position F)
  pub navs : List (NavPoint F)
