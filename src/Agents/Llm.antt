-- ===== src/Agents/Llm.antt =====
-- packages/agents/src/signal_agents/llm_engine.py: six prompts in a row; the model that answers
-- them, and the JSON of its answers, are parameters. The texts that explain are not modelled.
use signal_lab.Common.{Bool, true, false, ◌&&◌, Option, none, some, if◌then◌else◌, Result, ok}
use signal_lab.Common.Int.{ℤ, pos, ltb_ℤ, leb_ℤ}
use signal_lab.Common.Float.{Floats}
use signal_lab.Common.Text.{Text, codes, text_eq}
use signal_lab.Agents.Rules.{
  CandidateSnapshot, Action, buy, sell, hold, is_buy, RiskView, Decision, decide_rule,
}
use signal_lab.Agents.Snapshot.{and_then}

-- The nodes of the graph, each with what its prompt shows.
pub data Prompt (F : Type 0) : Type 0 where
  technical : CandidateSnapshot F → ℤ → Prompt F
  recommendation : CandidateSnapshot F → ℤ → Text → Prompt F
  bull bear : Text → Text → Prompt F
  trader : Text → Text → ℤ → Prompt F
  risk : Action → CandidateSnapshot F → ℤ → Prompt F

-- What `json.loads` finds in the answer of the trader, with the defaults of `get`.
pub record TraderReply (F : Type 0) : Type 0 where
  pub action : Text
  pub confidence : F

-- `read_trader` and `read_risk` parse from the first brace to the last one; `none` is an exception.
pub record Llm (F : Type 0) : Type 0 where
  pub ask : Prompt F → Result Text Text
  pub read_trader : Text → Option (TraderReply F)
  pub read_risk : Text → Option RiskView

abbrev pub action_of : Text → Action
action_of s =
    if text_eq s (codes "buy") then buy else if text_eq s (codes "sell") then sell else hold

abbrev pub is_sell : Action → Bool
is_sell sell = true
is_sell _ = false

-- The node `risk`, from its answer on.
abbrev pub view_of : Option RiskView → RiskView
view_of none = record { veto_buy = false; force_sell = false }
view_of (some v) = v

abbrev pub vetoed : Bool → Action → Action
vetoed veto action = if veto && is_buy action then hold else action

abbrev pub forced : Bool → ℤ → Action → Action
forced force held action = if force && ltb_ℤ (pos 0) held then sell else action

abbrev pub held_only : ℤ → Action → Action
held_only held action = if is_sell action && leb_ℤ held (pos 0) then hold else action

unfoldable pub final_action : RiskView → Action → ℤ → Action
final_action v wanted held = held_only held (forced v.force_sell held (vetoed v.veto_buy wanted))

abbrev pub final_quantity : Action → ℤ → ℤ
final_quantity action held =
    if is_buy action then pos 100 else if is_sell action then held else pos 0

module _ {F : Type 0} where
  unfoldable pub final_of : RiskView → Action × F → ℤ → Decision F
  unfolding final_action
  final_of v (wanted, confidence) held = record {
    action = final_action v wanted held;
    confidence = confidence;
    suggested_qty = final_quantity (final_action v wanted held) held;
  }

module _ {F : Type 0} ⦃fl : Floats F⦄ (round3 : F → F) where
  -- The node `trader`, from its answer on.
  unfoldable pub wanted_of : CandidateSnapshot F → ℤ → Option (TraderReply F) → Action × F
  wanted_of snap held none = let r = decide_rule round3 snap held in (r.action, r.confidence)
  wanted_of snap held (some r) = (action_of r.action, r.confidence)

  unfoldable pub decide_llm : Llm F → CandidateSnapshot F → ℤ → Result Text (Decision F)
  unfolding wanted_of final_of
  decide_llm llm snap held = and_then (llm.ask (technical snap held)) λ t.
      and_then (llm.ask (recommendation snap held t)) λ r. and_then (llm.ask (bull t r)) λ up.
        and_then (llm.ask (bear t r)) λ down. and_then (llm.ask (trader up down held)) λ raw.
          let wanted = wanted_of snap held (llm.read_trader raw) in
          and_then (llm.ask (risk wanted.0 snap held))
            λ answer. ok (final_of (view_of (llm.read_risk answer)) wanted held)
