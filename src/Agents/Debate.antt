-- ===== src/Agents/Debate.antt =====
-- What the debate of the language models never decides (signal_agents/llm_engine.py).
use mathlib.Core.Path.{subst}
use signal_lab.Common.{
  ◌≡◌, refl, sym, Bool, true, false, Bool-cases, inl, inr, arith, if◌then◌else◌, Result, ok, err,
}
use signal_lab.Common.Int.{ℤ, pos, ltb_ℤ, leb_ℤ}
use signal_lab.Common.Float.{Floats}
use signal_lab.Common.Text.{Text}
use signal_lab.Agents.Rules.{
  CandidateSnapshot, Action, buy, sell, hold, RiskView, Decision, overruled, decide_rule,
}
use signal_lab.Agents.Risk.{Sized, decide_rule_safe}
use signal_lab.Agents.Service.{Ports, AgentSettings, Work, answered, decide}
use signal_lab.Agents.Snapshot.{and_then}
use signal_lab.Agents.Llm.{
  technical, recommendation, bull, bear, trader, risk, Llm, view_of, held_only, final_action,
  final_quantity, wanted_of, final_of, decide_llm,
}

-- The risk manager's answers have the effect they have in the rules; then a sale needs a holding.
final_action-overruled :
    (v : RiskView) (wanted : Action) (held : ℤ)
    → final_action v wanted held ≡ held_only held (overruled v wanted held)
unfolding final_action overruled
final_action-overruled v wanted held = elim (Bool-cases (v.force_sell)) [
  | inl yes₁ ↦
      rw yes₁
        (elim (Bool-cases (ltb_ℤ (pos 0) held)) [ inl yes₂ ↦ rw yes₂ refl | inr no₂ ↦ rw no₂ refl ])
  | inr no₁ ↦ rw no₁ refl
]

held_only-Sized :
    (action : Action) (held : ℤ)
    → Sized (held_only held action) held (final_quantity (held_only held action) held)
held_only-Sized buy held = refl
held_only-Sized hold held = refl
held_only-Sized sell held = elim (Bool-cases (leb_ℤ held (pos 0))) [
  | inl yes₁ ↦ rw yes₁ refl
  | inr no₁ ↦ rw no₁ (ground (arith, no₁), refl)
]

-- What holds of a result where there is one.
abbrev Ok : {E A : Type 0} → (A → Type 0) → Result E A → Type 0
Ok P (ok a) = P a
Ok P (err e) = Unit

and_then-Ok :
    {E A B : Type 0} (P : B → Type 0) (r : Result E A) (k : A → Result E B)
    → ((a : A) → Ok P (k a))
    → Ok P (and_then r k)
and_then-Ok P (ok a) k h = h a
and_then-Ok P (err e) k h = tt

module _ {F : Type 0} ⦃fl : Floats F⦄ where
  abbrev pub FitsHolding : ℤ → Decision F → Type 0
  FitsHolding held r = Sized r.action held r.suggested_qty

  -- The risk manager of the debate decides as that of the rules does on the same wanted action and
  -- the same answers, but that a sale needs a holding; the shares fit the action: 100 for a
  -- purchase, the holding for a sale, none for a hold.
  pub final_of-overruled :
      (v : RiskView) (wanted : Action) (confidence : F) (held : ℤ)
      → let r = final_of v (wanted, confidence) held in
        (r.action ≡ held_only held (overruled v wanted held)) × FitsHolding held r
  unfolding final_of
  final_of-overruled v wanted confidence held = (
    final_action-overruled v wanted held,
    subst (λ action. Sized action held (final_quantity action held))
        (sym (final_action-overruled v wanted held))
        (held_only-Sized (overruled v wanted held) held),
  )

  chosen-FitsHolding :
      {S : Type 0} (held : ℤ) (b : Bool) (p q : Decision F × S)
      → FitsHolding held p.0
      → FitsHolding held q.0
      → FitsHolding held (if b then p else q).0
  chosen-FitsHolding held true p q hp hq = hp
  chosen-FitsHolding held false p q hp hq = hq

  module _ (round3 : F → F) (llm : Llm F) (snap : CandidateSnapshot F) (held : ℤ) where
    decide_llm-Ok : Ok (FitsHolding held) (decide_llm round3 llm snap held)
    unfolding decide_llm
    decide_llm-Ok =
        let P = FitsHolding held in
        and_then-Ok P (llm.ask (technical snap held)) _ λ t.
          and_then-Ok P (llm.ask (recommendation snap held t)) _ λ r.
            and_then-Ok P (llm.ask (bull t r)) _ λ up. and_then-Ok P (llm.ask (bear t r)) _ λ down.
              and_then-Ok P (llm.ask (trader up down held)) _ λ raw.
                let wanted = wanted_of round3 snap held (llm.read_trader raw) in
                and_then-Ok P (llm.ask (risk wanted.0 snap held)) _ λ answer.
                  (final_of-overruled (view_of (llm.read_risk answer)) wanted.0 wanted.1 held).1

module _ {F : Type 0} ⦃fl : Floats F⦄ (ports : Ports F) (settings : AgentSettings F) where
  answered-FitsHolding :
      (r : Result Text (Decision F)) (snap : CandidateSnapshot F) (held : ℤ) (s : Work F)
      → Ok (FitsHolding held) r
      → FitsHolding held (answered ports settings r snap held s).0
  answered-FitsHolding (ok d) snap held s h = h
  answered-FitsHolding (err e) snap held s h = (decide_rule_safe ports.round3 snap held).2

  -- Whether a language model or the rules decide, and whatever the model answers, a decision is a
  -- purchase of 100 shares, a sale of the whole holding, which is not empty, or a hold of none.
  pub decide-FitsHolding :
      (snap : CandidateSnapshot F) (held : ℤ) (s : Work F)
      → FitsHolding held (decide ports settings snap held s).0
  unfolding decide
  decide-FitsHolding snap held s =
      chosen-FitsHolding held s.use_llm
        (answered ports settings (decide_llm ports.round3 ports.llm snap held) snap held s)
        (decide_rule ports.round3 snap held, s)
        (answered-FitsHolding (decide_llm ports.round3 ports.llm snap held) snap held s
          (decide_llm-Ok ports.round3 ports.llm snap held))
        (decide_rule_safe ports.round3 snap held).2
