-- ===== src/Agents/Steps.antt =====
-- What every step of a run keeps, the loop over the symbols keeps (signal_agents/service.py).
use signal_lab.Common.{
  ℕ, ◌≡◌, refl, arith, Bool, true, false, Option, none, some, List, [], ◌∷◌, All, if◌then◌else◌,
  Result, ok, err, Keeps, Keeps-bind,
}
use signal_lab.Common.Float.{Floats}
use signal_lab.Common.Int.{ℤ, pos}
use signal_lab.Common.Text.{Text}
use signal_lab.Common.TextSet.{is_in}
use signal_lab.Agents.Rules.{CandidateSnapshot, Decision, decide_rule}
use signal_lab.Agents.Snapshot.{snapshot_symbol}
use signal_lab.Agents.Llm.{decide_llm}
use signal_lab.Agents.Service.{
  Ports, AgentSettings, Work, held_or, check_budget, answered, decide, store, at_snapshot,
  one_symbol, each_symbol,
}

module _ {F : Type 0} ⦃fl : Floats F⦄ (ports : Ports F) (settings : AgentSettings F)
    (now run_id : ℕ) (new_id : Text → ℕ) (symbols : List Text) (Q : Work F → Type 0) where
  abbrev pub paid : Work F → Work F
  paid s = record s { cost = fl.add s.cost settings.cost_per_symbol_usd }

  -- The budget has room for one more symbol.
  abbrev pub HasRoom : Work F → Type 0
  HasRoom s = fl.lt settings.max_llm_cost_usd (paid s).cost ≡ false

  pub record Steps : Type 0 where
    pub use_llm : (b : Bool) (s : Work F) → Q s → Q (record s { use_llm = b })
    pub paid : (s : Work F) → HasRoom s → Q s → Q (paid s)
    pub store :
        (symbol : Text) (d : Decision F) (s : Work F)
        → is_in symbol symbols ≡ true
        → Q s
        → Q (store ports settings now run_id new_id symbol (d, s))

  module _ (i : Steps) where
    answered-Keeps :
        (r : Result Text (Decision F)) (snap : CandidateSnapshot F) (held : ℤ) (s : Work F)
        → HasRoom s
        → Q s
        → Q (answered ports settings r snap held s).1
    answered-Keeps (ok d) snap held s room h = i.paid s room h
    answered-Keeps (err e) snap held s room h = h

    chosen-Keeps :
        (b : Bool) (p q : Decision F × Work F)
        → (b ≡ true → Q p.1)
        → Q q.1
        → Q (if b then p else q).1
    chosen-Keeps true p q hp hq = hp refl
    chosen-Keeps false p q hp hq = hq

    decide-Keeps :
        (snap : CandidateSnapshot F) (held : ℤ) (s : Work F)
        → (s.use_llm ≡ true → HasRoom s)
        → Q s
        → Q (decide ports settings snap held s).1
    unfolding decide
    decide-Keeps snap held s room h =
        chosen-Keeps s.use_llm
          (answered ports settings (decide_llm ports.round3 ports.llm snap held) snap held s)
          (decide_rule ports.round3 snap held, s) (λ e. answered-Keeps _ snap held s (room e) h) h

    at_snapshot-Keeps :
        (symbol : Text) (held : ℤ) (r : Result Text (Option (CandidateSnapshot F))) (s : Work F)
        → is_in symbol symbols ≡ true
        → (s.use_llm ≡ true → HasRoom s)
        → Q s
        → Q (at_snapshot ports settings now run_id new_id symbol held r s).1
    at_snapshot-Keeps symbol held (err e) s m room h = h
    at_snapshot-Keeps symbol held (ok none) s m room h = h
    at_snapshot-Keeps symbol held (ok (some snap)) s m room h =
        i.store symbol (decide ports settings snap held s).0 (decide ports settings snap held s).1 m
          (decide-Keeps snap held s room h)

    one_symbol-Keeps :
        (positions : List (Text × ℤ)) (symbol : Text)
        → is_in symbol symbols ≡ true
        → Keeps Q (one_symbol ports settings now run_id new_id positions symbol)
    unfolding one_symbol check_budget
    one_symbol-Keeps positions symbol m s h =
        at_snapshot-Keeps symbol (held_or (pos 0) positions symbol)
          (snapshot_symbol ports.mean symbol (ports.closes symbol) (ports.win_rate symbol))
          (check_budget ports settings s) m (λ e. ground (arith, e)) (i.use_llm _ s h)

    pub each_symbol-Keeps :
        (positions : List (Text × ℤ)) (xs : List Text)
        → All (λ symbol. is_in symbol symbols ≡ true) xs
        → Keeps Q (each_symbol ports settings now run_id new_id positions xs)
    unfolding each_symbol
    each_symbol-Keeps positions [] m s h = h
    each_symbol-Keeps positions (symbol ∷ xs) m s h =
        Keeps-bind Q (one_symbol ports settings now run_id new_id positions symbol)
          (λ _. each_symbol ports settings now run_id new_id positions xs)
          (one_symbol-Keeps positions symbol m.0) (λ _. each_symbol-Keeps positions xs m.1) s h
