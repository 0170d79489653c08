-- ===== src/Agents/Risk.antt =====
-- What the rule engine never does (signal_agents/rule_engine.py, candidates.py).
use signal_lab.Common.{◌≡◌, refl, Bool, true, false, ◌&&◌, arith, if◌then◌else◌}
use signal_lab.Common.Int.{ℤ, pos, ltb_ℤ, ◌≤ℤ◌}
use signal_lab.Common.Float.{Floats}
use signal_lab.Agents.Rules.{
  CandidateSnapshot, Action, buy, sell, hold, is_buy, minus, fell_below, momentum_score,
  trader_view, risk_view, overruled, quantity_for, decide_rule,
}

-- How many shares go with an action.
abbrev pub Sized : Action → ℤ → ℤ → Type 0
Sized buy held q = q ≡ pos 100
Sized sell held q = (pos 1 ≤ℤ held) × (q ≡ held)
Sized hold held q = q ≡ pos 0

-- The trader sells only what is held.
abbrev Sellable : Action → ℤ → Type 0
Sellable sell held = ltb_ℤ (pos 0) held ≡ true
Sellable _ held = Unit

-- What the decision makes of a view of the trader and of the risk manager's two answers.
abbrev Safe : Action → Bool → Bool → ℤ → Action → Type 0
Safe wanted veto force held action =
    (veto ≡ true → is_buy action ≡ false)
    × (force ≡ true
        → ltb_ℤ (pos 0) held ≡ true
        → (action ≡ sell) × (quantity_for action held ≡ held))
    × Sized action held (quantity_for action held)

sell-Sized : (held : ℤ) → ltb_ℤ (pos 0) held ≡ true → Sized sell held (quantity_for sell held)
unfolding quantity_for
sell-Sized held h = (ground (arith, h), rw h refl)

-- Without a forced sale the veto decides.
unforced :
    (wanted : Action) (veto : Bool) (held : ℤ)
    → Sellable wanted held
    → let action = if veto && is_buy wanted && is_buy wanted then hold else wanted in
      (veto ≡ true → is_buy action ≡ false) × Sized action held (quantity_for action held)
unfolding quantity_for
unforced buy true held k = (λ _. refl, refl)
unforced buy false held k = (λ e. absurd (ground (arith, e)), refl)
unforced sell true held k = (λ _. refl, sell-Sized held k)
unforced sell false held k = (λ _. refl, sell-Sized held k)
unforced hold true held k = (λ _. refl, refl)
unforced hold false held k = (λ _. refl, refl)

decide-Safe :
    (wanted : Action) (veto force positive : Bool) (held : ℤ)
    → ltb_ℤ (pos 0) held ≡ positive
    → Sellable wanted held
    → Safe wanted veto force held (
        if force && positive
        then sell
        else if veto && is_buy wanted && is_buy wanted
        then hold
        else wanted)
decide-Safe wanted veto true true held h k =
    let sized = sell-Sized held h in (λ _. refl, λ _ _. (refl, sized.1), sized)
decide-Safe wanted veto true false held h k =
    let (vetoed, sized) = unforced wanted veto held k in
    (vetoed, λ _ e. absurd (ground (arith, e, h)), sized)
decide-Safe wanted veto false positive held h k =
    let (vetoed, sized) = unforced wanted veto held k in
    (vetoed, λ e. absurd (ground (arith, e)), sized)

sellable :
    (good bad positive : Bool) (held : ℤ)
    → ltb_ℤ (pos 0) held ≡ positive
    → Sellable (if good then buy else if bad && positive then sell else hold) held
sellable true bad positive held h = tt
sellable false true true held h = h
sellable false true false held h = tt
sellable false false positive held h = tt

module _ {F : Type 0} ⦃fl : Floats F⦄ where
  trader_view-Sellable : (score : F) (held : ℤ) → Sellable (trader_view score held) held
  unfolding trader_view
  trader_view-Sellable score held =
      sellable (fl.le (fl.lit 25 2) score) (fl.le score (minus 25 2)) (ltb_ℤ (pos 0) held) held refl

  -- The rule engine never buys what fell by more than eight percent in five days, sells the whole
  -- holding of what fell by more than twelve, and suggests 100 shares for a purchase, exactly the
  -- holding, which is not empty, for a sale, and none otherwise.
  pub decide_rule_safe :
      (round3 : F → F) (snap : CandidateSnapshot F) (held : ℤ)
      → let r = decide_rule round3 snap held in
        (fell_below snap.ret_5d (minus 8 2) ≡ true → is_buy r.action ≡ false)
        × (fell_below snap.ret_5d (minus 12 2) ≡ true
            → ltb_ℤ (pos 0) held ≡ true
            → (r.action ≡ sell) × (r.suggested_qty ≡ held))
        × Sized r.action held r.suggested_qty
  unfolding decide_rule risk_view overruled
  decide_rule_safe round3 snap held =
      let wanted = trader_view (momentum_score snap) held in
      let (vetoed, forced, sized) =
        decide-Safe wanted (fell_below snap.ret_5d (minus 8 2))
          (fell_below snap.ret_5d (minus 12 2)) (ltb_ℤ (pos 0) held) held refl
          (trader_view-Sellable (momentum_score snap) held) in
      (vetoed, forced, sized)
