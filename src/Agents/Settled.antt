-- ===== src/Agents/Settled.antt =====
-- What a run leaves in the tables (signal_agents/service.py, `run`).
mod Rows
use mathlib.Core.Path.{subst}
use signal_lab.Common.{
  not, ◌&&◌, ℕ, ◌+◌, ◌==◌, ◌≡◌, refl, sym, ap, ◌∙◌, ◌⊎◌, inl, inr, arith, Bool, true, false,
  Bool-cases, Option, none, some, List, [], ◌∷◌, ◌++◌, map, All, length, length-append, append_none,
  if◌then◌else◌, Result, ok, err, Transaction, take,
}
use signal_lab.Common.Float.{Floats}
use signal_lab.Common.Int.{ℤ}
use signal_lab.Common.Text.{Text}
use signal_lab.Common.TextSet.{is_in, own_members}
use signal_lab.Agents.Pool.{build_candidate_pool}
use signal_lab.Agents.Repo.{
  RunStatus, succeeded, failed, AgentRun, Signal, Db, find, create_run, finished, finish_run,
  insert_signal, get_run,
}
use signal_lab.Agents.Steps.{Steps, each_symbol-Keeps}
use signal_lab.Agents.Service.{
  Ports, AgentSettings, Work, RunReport, positions_of, conclude, work_of, over_positions, run,
}
pub use Rows.*

module _ {F : Type 0} ⦃fl : Floats F⦄ (ports : Ports F) (settings : AgentSettings F)
    (now run_id : ℕ) (new_id : Text → ℕ) (symbols : List Text) (db : Db F) (C : F → Type 0) where
  -- What holds of a cost stays true when one more symbol is paid for within the budget.
  abbrev pub IsKept : Type 0
  IsKept =
      (c : F)
      → fl.lt settings.max_llm_cost_usd (fl.add c settings.cost_per_symbol_usd) ≡ false
      → C c
      → C (fl.add c settings.cost_per_symbol_usd)

  Drafting-Steps :
      IsKept
      → Steps ports settings now run_id new_id symbols
          (λ w. Drafting run_id symbols db w × C w.cost)
  unfolding insert_signal
  Drafting-Steps kept = record {
    use_llm = λ b s h. h;
    paid = λ s room ((a, b, c), h). ((a, b, c), kept s.cost room h);
    store = λ symbol d s m ((a, b, c), h). (
      (
        a,
        b,
        Extends-one (Drawn run_id symbols) db.signals s.created s.session.current.signals _ c
            (refl, m),
      ),
      h,
    );
  }

  conclude-Outcome :
      (db₀ : Db F) (model : Text) (r : Result Text (Unit {0})) (w : Work F)
      → db ≡ create_run (fl.lit 0 0) run_id now model (length symbols) db₀
      → get_run run_id db₀ ≡ none
      → Drafting run_id symbols db w
      → C w.cost
      → Outcome C run_id symbols db₀.signals
          (conclude ports settings now run_id new_id (length symbols) model (r, w))
  unfolding conclude create_run
  conclude-Outcome db₀ model (ok u) w e fresh (a, b, (new, added, size, drawn)) h =
      let (r, found, ended, cost) =
        closed_row run_id succeeded w.cost [] now (fl.lit 0 0) model (length symbols) db₀
          w.session.current fresh (b ∙ ap (λ d. d.runs) e) in
      (
        refl,
        inl (
          record {
            run_id = run_id;
            signals = w.created;
            candidates = length symbols;
            model = model;
            llm_cost_usd = w.cost;
          },
          refl,
          (r, found, ended, (subst C (sym cost) h, cost)),
          (new, added ∙ ap (λ d. d.signals ++ new) e, size, drawn),
        ),
      )
  conclude-Outcome db₀ model (err x) w e fresh (a, b, c) h =
      let (r, found, ended, cost) =
        closed_row run_id failed w.cost (take 500 x) now (fl.lit 0 0) model (length symbols) db₀
          w.session.committed fresh (ap (λ d. d.runs) (a ∙ e)) in
      (refl, inr (x, refl, (r, found, ended, subst C (sym cost) h), ap (λ d. d.signals) (a ∙ e)))

module _ {F : Type 0} ⦃fl : Floats F⦄ (ports : Ports F) (settings : AgentSettings F)
    (now run_id : ℕ) (new_id : Text → ℕ) (C : F → Type 0) where
  over_positions-Outcome :
      (symbols : List Text) (use_llm : Bool) (model : Text) (ps : List (Text × ℤ)) (db₀ : Db F)
      → get_run run_id db₀ ≡ none
      → C (fl.lit 0 0)
      → IsKept ports settings now run_id new_id symbols db₀ C
      → let db = create_run (fl.lit 0 0) run_id now model (length symbols) db₀ in
        Outcome C run_id symbols db₀.signals (
          over_positions ports settings now run_id new_id symbols use_llm model
            (ok ps)
            (record { current = db; committed = db }))
  unfolding create_run
  over_positions-Outcome symbols use_llm model ps db₀ fresh free kept =
      let db = create_run (fl.lit 0 0) run_id now model (length symbols) db₀ in
      let begun =
        work_of ports settings now run_id new_id use_llm
          (record { current = db; committed = db }) in
      let drafted =
        each_symbol-Keeps ports settings now run_id new_id symbols
          (λ w. Drafting run_id symbols db w × C w.cost)
          (Drafting-Steps ports settings now run_id new_id symbols db C kept) ps symbols
          (own_members symbols) begun
          ((refl, refl, ([], sym (append_none db.signals), refl, tt)), free) in
      conclude-Outcome ports settings now run_id new_id symbols db C db₀ model _ _ refl fresh
        drafted.0 drafted.1

  -- Where the pool and the positions could be read, a run of a fresh id leaves nothing uncommitted.
  -- Either it went through: its row says so with the cost that it reports, and the signals behind
  -- those that were there are its own, about symbols of the pool, as many as it reports. Or a port
  -- failed: its row says so, and no signal of it is left. What holds of no cost, and stays true for
  -- each symbol that the budget has room for, holds of the cost.
  pub run-Outcome :
      (account_id : Option ℕ) (extra : List Text) (force_rule : Bool) (s : Transaction (Db F))
      (watched recent : List Text) (ps : List (Text × ℤ))
      → ports.list_symbols ≡ ok watched
      → ports.recent_recommended_symbols 30 settings.max_candidates ≡ ok recent
      → positions_of ports settings account_id ≡ ok ps
      → get_run run_id s.current ≡ none
      → C (fl.lit 0 0)
      → ((c : F)
          → fl.lt settings.max_llm_cost_usd (fl.add c settings.cost_per_symbol_usd) ≡ false
          → C c
          → C (fl.add c settings.cost_per_symbol_usd))
      → let symbols = build_candidate_pool watched (λ _ _. recent) extra settings.max_candidates in
        Outcome C run_id symbols s.current.signals
          (run ports settings now run_id new_id account_id extra force_rule s)
  unfolding run
  run-Outcome account_id extra force_rule s watched recent ps w r p fresh free kept =
      let symbols = build_candidate_pool watched (λ _ _. recent) extra settings.max_candidates in
      rw (w, r, p)
        (over_positions-Outcome symbols (settings.has_llm_api_key && not force_rule) _ ps s.current
          fresh free kept)
