-- ===== src/Agents/Service.antt =====
-- packages/agents/src/signal_agents/service.py, over the ports of ports.py. What a port answers
-- during a call is an argument, as the clock and the uuids are.
use signal_lab.Common.{
  ℕ, ◌+◌, Bool, not, ◌&&◌, Option, none, some, List, [], ◌∷◌, if◌then◌else◌, length, take, Result,
  ok, err, Exec, ◌>>◌, pure, Transaction, commit, rollback, write,
}
use signal_lab.Common.Int.{ℤ, pos}
use signal_lab.Common.Float.{Floats}
use signal_lab.Common.Text.{Text, codes, text_eq}
use signal_lab.Agents.Pool.{build_candidate_pool}
use signal_lab.Agents.Rules.{CandidateSnapshot, Decision, decide_rule}
use signal_lab.Agents.Snapshot.{snapshot_symbol}
use signal_lab.Agents.Llm.{Llm, decide_llm}
use signal_lab.Agents.Repo.{succeeded, failed, Db, create_run, finish_run, signal_of, insert_signal}

pub record AgentSettings (F : Type 0) : Type 0 where
  pub has_llm_api_key : Bool
  pub llm_model : Text
  pub max_candidates : ℕ
  pub max_llm_cost_usd : F
  pub cost_per_symbol_usd : F

pub record Ports (F : Type 0) : Type 0 where
  pub list_symbols : Result Text (List Text)
  pub recent_recommended_symbols : ℕ → ℕ → Result Text (List Text)
  pub closes : Text → Result Text (List F)
  pub win_rate : Text → Result Text (Option F)
  pub list_positions : ℕ → Result Text (List (Text × ℤ))
  pub llm : Llm F
  -- numpy's mean, and `round(x, 3)`
  pub mean : List F → F
  pub round3 : F → F

-- The variables of `run` beside its session.
pub record Work (F : Type 0) : Type 0 where
  pub session : Transaction (Db F)
  pub use_llm : Bool
  pub cost : F
  pub created : ℕ

abbrev pub Run : Type 0 → Type 0 → Type 0
Run F A = Exec (Work F) Text A

pub record RunReport (F : Type 0) : Type 0 where
  pub run_id : ℕ
  pub signals : ℕ
  pub candidates : ℕ
  pub model : Text
  pub llm_cost_usd : F

-- `positions.get(symbol, 0)`: a later position of the same symbol replaces an earlier one.
abbrev pub held_or : ℤ → List (Text × ℤ) → Text → ℤ
held_or q [] symbol = q
held_or q ((s, n) ∷ ps) symbol = held_or (if text_eq s symbol then n else q) ps symbol

module _ {F : Type 0} ⦃fl : Floats F⦄ (ports : Ports F) (settings : AgentSettings F) where
  abbrev pub positions_of : Option ℕ → Result Text (List (Text × ℤ))
  positions_of none = ok []
  positions_of (some account_id) = ports.list_positions account_id

  unfoldable pub check_budget : Work F → Work F
  check_budget s =
      let spent = fl.lt settings.max_llm_cost_usd (fl.add s.cost settings.cost_per_symbol_usd) in
      record s { use_llm = s.use_llm && not spent }

  -- The cost counts only if the model answered; if it did not, the rules decide.
  abbrev pub answered :
      Result Text (Decision F) → CandidateSnapshot F → ℤ → Work F → Decision F × Work F
  answered (ok d) snap held s = (d, record s { cost = fl.add s.cost settings.cost_per_symbol_usd })
  answered (err e) snap held s = (decide_rule ports.round3 snap held, s)

  unfoldable pub decide : CandidateSnapshot F → ℤ → Work F → Decision F × Work F
  unfolding decide_llm decide_rule
  decide snap held s =
      if s.use_llm
      then answered (decide_llm ports.round3 ports.llm snap held) snap held s
      else (decide_rule ports.round3 snap held, s)

  module _ (now run_id : ℕ) (new_id : Text → ℕ) where
    abbrev pub store : Text → Decision F × Work F → Work F
    store symbol (d, s) = record s {
      session = write (insert_signal (signal_of (new_id symbol) run_id now symbol d)) s.session;
      created = s.created + 1;
    }

    abbrev pub at_snapshot :
        Text → ℤ → Result Text (Option (CandidateSnapshot F)) → Run F (Unit {0})
    at_snapshot symbol held (err e) s = (err e, s)
    at_snapshot symbol held (ok none) s = (ok tt, s)
    at_snapshot symbol held (ok (some snap)) s = (ok tt, store symbol (decide snap held s))

    -- The body of the loop.
    unfoldable pub one_symbol : List (Text × ℤ) → Text → Run F (Unit {0})
    unfolding check_budget snapshot_symbol decide insert_signal
    one_symbol positions symbol s =
        at_snapshot symbol (held_or (pos 0) positions symbol)
          (snapshot_symbol ports.mean symbol (ports.closes symbol) (ports.win_rate symbol))
          (check_budget s)

    unfoldable pub each_symbol : List (Text × ℤ) → List Text → Run F (Unit {0})
    unfolding one_symbol
    each_symbol positions [] = pure tt
    each_symbol positions (symbol ∷ symbols) =
        one_symbol positions symbol >> each_symbol positions symbols

    -- The end of the `try`, and its handler.
    unfoldable pub conclude :
        ℕ → Text → Result Text (Unit {0}) × Work F → Result Text (RunReport F) × Transaction (Db F)
    unfolding finish_run
    conclude candidates model (ok u, w) = (
      ok (record {
        run_id = run_id;
        signals = w.created;
        candidates = candidates;
        model = model;
        llm_cost_usd = w.cost;
      }),
      commit (write (finish_run run_id succeeded w.cost [] now) w.session),
    )
    conclude candidates model (err e, w) = (
      err e,
      commit (write (finish_run run_id failed w.cost (take 500 e) now) (rollback w.session)),
    )

    abbrev pub work_of : Bool → Transaction (Db F) → Work F
    work_of use_llm s = record { session = s; use_llm = use_llm; cost = fl.lit 0 0; created = 0 }

    abbrev pub over_positions :
        List Text
        → Bool
        → Text
        → Result Text (List (Text × ℤ))
        → Exec (Transaction (Db F)) Text (RunReport F)
    over_positions symbols use_llm model (err e) s = (err e, s)
    over_positions symbols use_llm model (ok ps) s =
        conclude (length symbols) model (each_symbol ps symbols (work_of use_llm s))

    abbrev pub over_symbols :
        Option ℕ → Bool → List Text → Exec (Transaction (Db F)) Text (RunReport F)
    over_symbols account_id use_llm symbols s =
        let model = if use_llm then settings.llm_model else codes "rule" in
        over_positions symbols use_llm model (positions_of account_id)
          (commit (write (create_run (fl.lit 0 0) run_id now model (length symbols)) s))

    abbrev pub over_pool :
        Result Text (List Text)
        → Result Text (List Text)
        → List Text
        → Option ℕ
        → Bool
        → Exec (Transaction (Db F)) Text (RunReport F)
    over_pool (err e) recent extra account_id use_llm s = (err e, s)
    over_pool (ok watched) (err e) extra account_id use_llm s = (err e, s)
    over_pool (ok watched) (ok recent) extra account_id use_llm s =
        over_symbols account_id use_llm
          (build_candidate_pool watched (λ _ _. recent) extra settings.max_candidates) s

    -- `AgentService.run`
    unfoldable pub run : Option ℕ → List Text → Bool → Exec (Transaction (Db F)) Text (RunReport F)
    unfolding build_candidate_pool create_run each_symbol conclude
    run account_id extra force_rule =
        over_pool ports.list_symbols (ports.recent_recommended_symbols 30 settings.max_candidates)
          extra account_id (settings.has_llm_api_key && not force_rule)
