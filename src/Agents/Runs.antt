-- ===== src/Agents/Runs.antt =====
-- A run over two symbols with a budget for one debate, a run that a port ends, and an adoption.
use signal_lab.Common.{
  ℕ, ◌+◌, ◌≡◌, refl, ◌⊎◌, Bool, true, false, Option, none, some, List, [], ◌∷◌, length, arith,
  Result, ok, err, Transaction, if◌then◌else◌,
}
use signal_lab.Common.Int.{ℤ, pos}
use signal_lab.Common.Fixed.{fixed, fixed-IsOrdered}
use signal_lab.Common.Text.{Text, codes, text_eq}
use signal_lab.Agents.Pool.{build_candidate_pool}
use signal_lab.Agents.Rules.{CandidateSnapshot}
use signal_lab.Agents.Llm.{Llm}
use signal_lab.Agents.Repo.{AgentRun, Db, get_run}
use signal_lab.Agents.Service.{Ports, AgentSettings, RunReport, run, decide, work_of}
use signal_lab.Agents.Adopt.{PaperPort, adopt_signal}
use signal_lab.Agents.Debate.{FitsHolding, decide-FitsHolding}
use signal_lab.Agents.Settled.{Outcome, run-Outcome}
use signal_lab.Agents.Budget.{not_over, run_affordable}

abbrev rising : List ℤ
rising = pos 100000 ∷ pos 101000 ∷ pos 102000 ∷ pos 103000 ∷ pos 104000 ∷ pos 110000 ∷ []

-- A model whose trader buys, and whose risk manager answers no JSON.
abbrev llm : Llm ℤ
llm = record {
  ask = λ prompt. ok (codes "text");
  read_trader = λ raw. some (record { action = codes "buy"; confidence = pos 7000 });
  read_risk = λ raw. none;
}

abbrev ports_with : (Text → Result Text (List ℤ)) → Ports ℤ
ports_with closes = record {
  list_symbols = ok (codes "600519.SH" ∷ codes "000001.SZ" ∷ []);
  recent_recommended_symbols = λ days limit. ok [];
  closes = closes;
  win_rate = λ symbol. ok none;
  list_positions = λ account_id. ok ((codes "600519.SH", pos 300) ∷ []);
  llm = llm;
  mean = λ xs. pos 100000;
  round3 = λ x. x;
}

abbrev ports : Ports ℤ
ports = ports_with (λ symbol. ok rising)

-- The bars of the second symbol cannot be read.
abbrev broken : Ports ℤ
broken =
    ports_with
      λ symbol. if text_eq symbol (codes "000001.SZ") then err (codes "no bars") else ok rising

abbrev settings : AgentSettings ℤ
settings = record {
  has_llm_api_key = true;
  llm_model = codes "model";
  max_candidates = 10;
  max_llm_cost_usd = pos 300;
  cost_per_symbol_usd = pos 200;
}

abbrev empty : Transaction (Db ℤ)
empty = record {
  current = record { runs = []; signals = [] };
  committed = record { runs = []; signals = [] };
}

abbrev pool : List Text
pool = build_candidate_pool (codes "600519.SH" ∷ codes "000001.SZ" ∷ []) (λ _ _. []) [] 10

abbrev run_with : Ports ℤ → Result Text (RunReport ℤ) × Transaction (Db ℤ)
run_with p = run p settings 100 1 length (some 4) [] false empty

two_signals : length (run_with ports).1.committed.signals ≡ 2
unfolding run signal_lab.Common.any text_eq signal_lab.Common.Int.◌+ℤ◌
two_signals = refl

none_left : length (run_with broken).1.committed.signals ≡ 0
unfolding run signal_lab.Common.any text_eq signal_lab.Common.Int.◌+ℤ◌
none_left = refl

abbrev stored : Db ℤ
stored = (run_with ports).1.committed

-- An account that takes every order.
abbrev taking : PaperPort ℕ ℤ
taking = record { place_order = λ account_id symbol action quantity note s. (ok quantity, s + 1) }

run-Outcome_example : Outcome (λ c. fixed.le c (pos 300) ≡ true) 1 pool [] (run_with broken)
unfolding get_run
run-Outcome_example =
    run-Outcome broken settings 100 1 length (λ c. fixed.le c (pos 300) ≡ true) (some 4) [] false
      empty (codes "600519.SH" ∷ codes "000001.SZ" ∷ []) [] ((codes "600519.SH", pos 300) ∷ []) refl
      refl refl refl refl
      (λ c room cheap. not_over fixed-IsOrdered (pos 300) (fixed.add c (pos 200)) room)

run_affordable_example :
    (r : AgentRun ℤ) × (get_run 1 (run_with ports).1.committed ≡ some r)
    × (fixed.le r.llm_cost_usd (pos 300) ≡ true)
unfolding get_run
run_affordable_example =
    run_affordable fixed-IsOrdered ports settings 100 1 length (some 4) [] false empty
      (codes "600519.SH" ∷ codes "000001.SZ" ∷ []) [] ((codes "600519.SH", pos 300) ∷ []) refl refl
      refl refl refl

abbrev snap : CandidateSnapshot ℤ
snap = record {
  symbol = codes "600519.SH";
  close = pos 110000;
  ret_5d = some (pos 1000);
  ret_20d = none;
  ma5 = none;
  ma20 = none;
  above_ma20 = none;
  win_rate = none;
}

decide-FitsHolding_example :
    FitsHolding
      (pos 300)
      (decide ports settings snap (pos 300) (work_of ports settings 100 1 length true empty)).0
decide-FitsHolding_example =
    decide-FitsHolding ports settings snap (pos 300)
      (work_of ports settings 100 1 length true empty)

-- The signal of the second stock is adopted for an account that answers with the quantity.
adopted : (adopt_signal taking stored 9 4 none 0).0 ≡ ok (pos 100)
unfolding adopt_signal run signal_lab.Common.any text_eq signal_lab.Common.Int.◌+ℤ◌
adopted = refl
