-- ===== src/Agents/Rules.antt =====
-- packages/agents/src/signal_agents/candidates.py, `momentum_score`, and rule_engine.py, without the
-- texts of the roles.
use signal_lab.Common.{ℕ, Bool, true, false, ◌&&◌, Option, none, some, if◌then◌else◌}
use signal_lab.Common.Int.{ℤ, pos, ltb_ℤ}
use signal_lab.Common.Text.{Text}
use signal_lab.Common.Float.{Floats, fmax, fmin}

-- `win_rate` is that of `rec_stats`, where it is a number.
pub record CandidateSnapshot (F : Type 0) : Type 0 where
  pub symbol : Text
  pub close : F
  pub ret_5d : Option F
  pub ret_20d : Option F
  pub ma5 : Option F
  pub ma20 : Option F
  pub above_ma20 : Option Bool
  pub win_rate : Option F

pub data Action : Type 0 where
  buy sell hold : Action

abbrev pub is_buy : Action → Bool
is_buy buy = true
is_buy _ = false

pub record RiskView : Type 0 where
  pub veto_buy : Bool
  pub force_sell : Bool

pub record Decision (F : Type 0) : Type 0 where
  pub action : Action
  pub confidence : F
  pub suggested_qty : ℤ

-- The trader's action after the risk manager.
unfoldable pub overruled : RiskView → Action → ℤ → Action
overruled risk action position_qty =
    if risk.force_sell && ltb_ℤ (pos 0) position_qty
    then sell
    else if risk.veto_buy && is_buy action
    then hold
    else action

unfoldable pub quantity_for : Action → ℤ → ℤ
quantity_for buy position_qty = pos 100
quantity_for sell position_qty = if ltb_ℤ (pos 0) position_qty then position_qty else pos 0
quantity_for hold position_qty = pos 0

module _ {F : Type 0} ⦃fl : Floats F⦄ where
  -- The literal -m / 10 ^ e.
  abbrev pub minus : ℕ → ℕ → F
  minus m e = fl.sub (fl.lit 0 0) (fl.lit m e)

  abbrev add_return : Option F → F → F
  add_return none score = score
  add_return (some r) score =
      fl.add score (fmax (fmin (fl.mul r (fl.lit 5 0)) (fl.lit 5 1)) (minus 5 1))

  abbrev add_trend : Option Bool → F → F
  add_trend none score = score
  add_trend (some true) score = fl.add score (fl.lit 2 1)
  add_trend (some false) score = fl.sub score (fl.lit 2 1)

  abbrev add_win_rate : Option F → F → F
  add_win_rate none score = score
  add_win_rate (some w) score = fl.add score (fl.mul (fl.sub w (fl.lit 5 1)) (fl.lit 4 1))

  unfoldable pub momentum_score : CandidateSnapshot F → F
  momentum_score snap =
      fmax
        (fmin
          (add_win_rate snap.win_rate
            (add_trend snap.above_ma20 (add_return snap.ret_5d (fl.lit 0 0))))
          (fl.lit 1 0))
        (minus 1 0)

  unfoldable pub trader_view : F → ℤ → Action
  trader_view score position_qty =
      if fl.le (fl.lit 25 2) score
      then buy
      else if fl.le score (minus 25 2) && ltb_ℤ (pos 0) position_qty
      then sell
      else hold

  abbrev pub fell_below : Option F → F → Bool
  fell_below none x = false
  fell_below (some r) x = fl.lt r x

  unfoldable pub risk_view : CandidateSnapshot F → Action → RiskView
  risk_view snap action = record {
    veto_buy = fell_below snap.ret_5d (minus 8 2) && is_buy action;
    force_sell = fell_below snap.ret_5d (minus 12 2);
  }

  abbrev absolute : F → F
  absolute x = if fl.lt x (fl.lit 0 0) then fl.sub (fl.lit 0 0) x else x

  -- `round3` is `round(x, 3)`.
  unfoldable pub decide_rule : (F → F) → CandidateSnapshot F → ℤ → Decision F
  unfolding quantity_for overruled risk_view trader_view
  decide_rule round3 snap position_qty =
      let score = momentum_score snap in
      let wanted = trader_view score position_qty in
      let action = overruled (risk_view snap wanted) wanted position_qty in
      record {
        action = action;
        confidence = round3 (absolute score);
        suggested_qty = quantity_for action position_qty;
      }
