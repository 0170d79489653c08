-- ===== src/Agents/Budget.antt =====
-- The cost of a run (signal_agents/service.py, `run`).
use signal_lab.Common.{
  ℕ, ◌≡◌, true, false, arith, inl, inr, Bool, Option, none, some, List, ok, Transaction,
}
use signal_lab.Common.Float.{Floats, IsOrdered}
use signal_lab.Common.Int.{ℤ}
use signal_lab.Common.Text.{Text}
use signal_lab.Agents.Repo.{AgentRun, Db, get_run}
use signal_lab.Agents.Service.{Ports, AgentSettings, positions_of, run}
use signal_lab.Agents.Settled.{run-Outcome}

module _ {F : Type 0} ⦃fl : Floats F⦄ (ord : IsOrdered F fl) where
  pub not_over : (max c : F) → fl.lt max c ≡ false → fl.le c max ≡ true
  not_over max c h = ground (arith, ord.lt_le max c, h)

  -- With a budget that is not negative and floats other than NaN, the cost that a run stores in its
  -- row is within the budget, whether the run went through or failed.
  pub run_affordable :
      (ports : Ports F) (settings : AgentSettings F) (now run_id : ℕ) (new_id : Text → ℕ)
      (account_id : Option ℕ) (extra : List Text) (force_rule : Bool) (s : Transaction (Db F))
      (watched recent : List Text) (ps : List (Text × ℤ))
      → ports.list_symbols ≡ ok watched
      → ports.recent_recommended_symbols 30 settings.max_candidates ≡ ok recent
      → positions_of ports settings account_id ≡ ok ps
      → get_run run_id s.current ≡ none
      → fl.le (fl.lit 0 0) settings.max_llm_cost_usd ≡ true
      → let t = (run ports settings now run_id new_id account_id extra force_rule s).1 in
        (r : AgentRun F) × (get_run run_id t.committed ≡ some r)
        × (fl.le r.llm_cost_usd settings.max_llm_cost_usd ≡ true)
  run_affordable ports settings now run_id new_id account_id extra force_rule s watched recent ps w
        r p fresh free =
      elim (run-Outcome ports settings now run_id new_id
        (λ c. fl.le c settings.max_llm_cost_usd ≡ true) account_id extra force_rule s watched recent
        ps w r p fresh free
        (λ c room _.
          not_over settings.max_llm_cost_usd (fl.add c settings.cost_per_symbol_usd) room)).1 [
            | inl (report, e, (row, found, ended, (cheap, cost)), added) ↦ (row, found, cheap)
            | inr (x, e, (row, found, ended, cheap), same) ↦ (row, found, cheap)
          ]
