-- ===== src/Paper/Engine.antt =====
-- packages/papertrade/src/signal_papertrade/engine.py: whether and at what price an order fills.
use signal_lab.Common.{
  ℕ, ◌==◌, Bool, false, not, ◌&&◌, ◌||◌, Option, none, some, List, [], ◌∷◌, ltb, if◌then◌else◌,
  length, last_or, Result, ok, err,
}
use signal_lab.Common.Int.{ℤ, pos, ◌+ℤ◌, ltb_ℤ, eqb_ℤ}
use signal_lab.Common.Text.{Text, codes, text_eq, starts_with, before}
use signal_lab.Common.Float.{Floats, fmax, fmin}
use signal_lab.Paper.Models.{
  Account, Reason, bad_open, short_cash, short_position, limit_up, limit_down,
}

-- `FillResult` with `ok`; a refusal is its reason.
pub record Fill (F : Type 0) : Type 0 where
  pub price : F
  pub amount : F
  pub commission : F

abbrev pub is_buy : Text → Bool
is_buy side = text_eq side (codes "buy")

abbrev pub is_sell : Text → Bool
is_sell side = text_eq side (codes "sell")

-- The result of `performance_metrics`.
pub record Metrics (F : Type 0) : Type 0 where
  pub total_return : Option F
  pub annualized : Option F
  pub max_drawdown : Option F
  pub excess_return : Option F

module _ {F : Type 0} ⦃fl : Floats F⦄ where
  abbrev zero_float : F
  zero_float = fl.lit 0 0

  abbrev one_float : F
  one_float = fl.lit 1 0

  unfoldable pub apply_slippage : F → Text → F → F
  apply_slippage price side slippage_bps =
      let adj = fl.mul price (fl.div slippage_bps (fl.lit 10000 0)) in
      if is_buy side then fl.add price adj else fl.sub price adj

  unfoldable pub calc_commission : F → F → F → F
  calc_commission amount rate minimum = fmax (fl.mul amount rate) minimum

  unfoldable pub limit_band : F → Text → F × F
  limit_band prev_close symbol =
      let code = before b'.' symbol in
      let pct : F =
        if starts_with code (codes "3") || starts_with code (codes "68")
        then fl.lit 20 2
        else fl.lit 10 2 in
      (fl.mul prev_close (fl.sub (fl.lit 1 0) pct), fl.mul prev_close (fl.add (fl.lit 1 0) pct))

  unfoldable pub try_fill : Account F → Text → ℤ → F → F → ℤ → Result Reason (Fill F)
  unfolding calc_commission
  try_fill account side quantity open_price cash position_qty =
      if fl.le open_price (fl.lit 0 0)
      then err bad_open
      else (let px = apply_slippage open_price side account.slippage_bps in
          let amount = fl.mul px (fl.of_int quantity) in
          let commission = calc_commission amount account.commission_rate account.commission_min in
          if is_buy side
          then (if fl.lt (fl.add cash (fl.lit 1 6)) (fl.add amount commission)
              then err short_cash
              else ok (record { price = px; amount = amount; commission = commission }))
          else if ltb_ℤ position_qty quantity
          then err short_position
          else ok (record {
            price = px;
            amount = amount;
            commission = fl.add commission (fl.mul amount account.stamp_tax_rate);
          }))

  -- `if prev_close and prev_close > 0`
  abbrev pub is_known : Option F → Bool
  is_known none = false
  is_known (some p) = not (fl.eq p (fl.lit 0 0)) && fl.lt (fl.lit 0 0) p

  abbrev pub value_or : F → Option F → F
  value_or d none = d
  value_or d (some p) = p

  -- The opening price touches the upper or the lower limit.
  unfoldable pub at_upper : Option F → Text → F → Bool
  unfolding limit_band
  at_upper prev symbol open_price =
      is_known prev
      && fl.le (fl.mul (limit_band (value_or (fl.lit 0 0) prev) symbol).1 (fl.lit 999 3)) open_price

  unfoldable pub at_lower : Option F → Text → F → Bool
  unfolding limit_band
  at_lower prev symbol open_price =
      is_known prev
      && fl.le open_price
          (fl.mul (limit_band (value_or (fl.lit 0 0) prev) symbol).0 (fl.lit 1001 3))

  unfoldable pub try_fill_with_limits :
      Account F → Text → Text → ℤ → F → Option F → F → ℤ → Result Reason (Fill F)
  try_fill_with_limits account symbol side quantity open_price prev_close cash position_qty =
      if is_buy side && at_upper prev_close symbol open_price
      then err limit_up
      else if is_sell side && at_lower prev_close symbol open_price
      then err limit_down
      else try_fill account side quantity open_price cash position_qty

  unfoldable pub new_avg_cost : ℤ → F → ℤ → F → F → F
  new_avg_cost old_qty old_cost buy_qty buy_price commission =
      let total_cost =
        fl.add (fl.add (fl.mul (fl.of_int old_qty) old_cost) (fl.mul (fl.of_int buy_qty) buy_price))
          commission in
      let new_qty = old_qty +ℤ buy_qty in
      if eqb_ℤ new_qty (pos 0) then fl.lit 0 0 else fl.div total_cost (fl.of_int new_qty)

  -- The loop over the series, with the peak and the deepest drawdown so far.
  unfoldable pub drawdown : F → F → List F → F
  drawdown peak max_dd [] = max_dd
  drawdown peak max_dd (v ∷ vs) =
      let peak' = fmax peak v in
      drawdown peak' (fmin max_dd (fl.sub (fl.div v peak') (fl.lit 1 0))) vs

  -- The return over the benchmark, where a benchmark of the same length is given.
  unfoldable pub excess_return : F → ℕ → Option (List F) → Option F
  excess_return total n none = none
  excess_return total n (some []) = none
  excess_return total n (some (b ∷ bs)) =
      if (length (b ∷ bs) == n) && not (fl.eq b (fl.lit 0 0))
      then some (fl.sub total (fl.sub (fl.div (last_or b bs) b) (fl.lit 1 0)))
      else none

  unfoldable pub performance_metrics : List F → Option (List F) → ℕ → Metrics F
  unfolding excess_return
  performance_metrics (v ∷ w ∷ vs) bench days =
      if fl.eq v (fl.lit 0 0)
      then record {
        total_return = none;
        annualized = none;
        max_drawdown = none;
        excess_return = none;
      }
      else (let total = fl.sub (fl.div (last_or w vs) v) (fl.lit 1 0) in
          let n = length (w ∷ vs) in
          record {
            total_return = some total;
            annualized = some (
                fl.sub
                  (fl.pow (fl.add (fl.lit 1 0) total)
                    (fl.div (fl.of_int (pos days)) (fl.of_int (pos n))))
                  (fl.lit 1 0));
            max_drawdown = some (drawdown v (fl.lit 0 0) (v ∷ w ∷ vs));
            excess_return = excess_return total (length (v ∷ w ∷ vs)) bench;
          })
  performance_metrics _ bench days = record {
    total_return = none;
    annualized = none;
    max_drawdown = none;
    excess_return = none;
  }

unfoldable pub next_trading_day : List ℕ → ℕ → Option ℕ
next_trading_day [] after = none
next_trading_day (d ∷ ds) after = if ltb after d then some d else next_trading_day ds after
