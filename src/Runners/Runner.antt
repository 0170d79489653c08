-- ===== src/Runners/Runner.antt =====
-- runners/alphaagent and runners/rdagent, runner.py and to_package.py, with the backend `stub`: the
-- two differ only in their constants. What the environment and job_spec.json give is an argument.
use signal_lab.Common.{
  ℕ, zero, suc, Bool, true, false, Option, none, some, List, [], ◌∷◌, ◌++◌, if◌then◌else◌, Result,
  ok, err, ◌>>=◌, ◌>>◌, pure, raise, modify, take,
}
use signal_lab.Common.Int.{pos, pos_part}
use signal_lab.Common.Float.{Floats}
use signal_lab.Common.Text.{Text, codes, show_ℕ}
use signal_lab.Contracts.Events.{
  RunnerEventType, started, loop_done, error, failed, budget_exceeded,
}
use signal_lab.Contracts.Package.{MetricsSummary, FactorSpec, Manifest, qlib_expression}
use signal_lab.Runners.Reporter.{
  Machine, Work, Run, Report, Reason, event, upload_artifact, complete, record_loop, is_out,
  exceeded, write_file,
}

-- The constants of a framework's stub.
pub record Framework (F : Type 0) : Type 0 where
  pub producer : Text
  pub started_text : Text
  pub loop_text : Text
  pub factor_name : Text
  pub start_ic : F
  pub ic_step : F
  pub loop_cost : F
  pub icir : F
  pub arr : F
  pub mdd : F
  pub turnover : F

-- `_stub_result`, and the other fields of `result`.
pub record RunResult (F : Type 0) : Type 0 where
  pub producer : Text
  pub factors : List FactorSpec
  pub metrics : MetricsSummary F

abbrev pub note : {F : Type 0} → RunnerEventType → Text → Report F
note type message = record {
  type = type;
  loop = none;
  best_ic = none;
  llm_cost_usd = none;
  message = some message;
}

module _ {F : Type 0} ⦃fl : Floats F⦄ where
  unfoldable pub alphaagent : Framework F
  alphaagent = record {
    producer = codes "alphaagent@stub";
    started_text = codes "alphaagent stub runner started";
    loop_text = codes "alphaagent stub loop ";
    factor_name = codes "aa_rev_1d";
    start_ic = fl.lit 1 2;
    ic_step = fl.lit 5 3;
    loop_cost = fl.lit 5 2;
    icir = fl.lit 5 1;
    arr = fl.lit 12 2;
    mdd = fl.neg (fl.lit 8 2);
    turnover = fl.lit 2 1;
  }

  unfoldable pub rdagent : Framework F
  rdagent = record {
    producer = codes "rdagent@stub";
    started_text = codes "rdagent stub runner started";
    loop_text = codes "rdagent stub loop ";
    factor_name = codes "rd_rev_1d";
    start_ic = fl.lit 12 3;
    ic_step = fl.lit 4 3;
    loop_cost = fl.lit 8 2;
    icir = fl.lit 45 2;
    arr = fl.lit 11 2;
    mdd = fl.neg (fl.lit 9 2);
    turnover = fl.lit 22 2;
  }

  -- `-abs(float(best_ic))`
  abbrev pub claimed_ic : F → F
  claimed_ic ic = if fl.lt ic (fl.lit 0 0) then ic else fl.neg ic

  unfoldable pub stub_result : Framework F → F → RunResult F
  stub_result fw best_ic = record {
    producer = fw.producer;
    factors =
        record {
          name = fw.factor_name;
          expression = some (codes "Ref($close, 1) / $close - 1");
          code_file = none;
        }
        ∷ [];
    metrics = record {
      ic = claimed_ic best_ic;
      icir = some fw.icir;
      arr = fw.arr;
      mdd = fw.mdd;
      turnover = some fw.turnover;
    };
  }

-- The manifest of `..._result_to_package`; without factors it raises a ValueError.
abbrev pub manifest_of :
    {F : Type 0} → RunResult F → ℕ → Text → List FactorSpec → Result Text (Manifest F)
manifest_of r package_id data_snapshot [] = err (codes "no factors")
manifest_of r package_id data_snapshot (f ∷ factors) = ok (record {
  package_id = package_id;
  producer = r.producer;
  data_snapshot = data_snapshot;
  universe = codes "csi300";
  metrics_summary = r.metrics;
  signal_protocol = qlib_expression;
  factors = f ∷ factors;
})

unfoldable pub to_manifest : {F : Type 0} → RunResult F → ℕ → Text → Result Text (Manifest F)
to_manifest r package_id data_snapshot = manifest_of r package_id data_snapshot r.factors

-- The libraries that write a package and a result: zipfile and json, and `round(x, 4)`.
pub record Writers (F : Type 0) : Type 0 where
  pub zip : Manifest F → RunResult F → Text
  pub dump_result : RunResult F → Text
  pub round4 : F → F

module _ {F W : Type 0} ⦃fl : Floats F⦄ (mc : Machine F W) (wr : Writers F) (fw : Framework F) where
  -- The part of a round after the guard let it pass.
  unfoldable pub one_loop : F → Run F W (Unit {0})
  unfolding record_loop event
  one_loop best_ic = do
    modify (λ s. record s { world = mc.sleep s.world })
    modify (record_loop fw.loop_cost)
    λ s.
        event mc
          (record {
            type = loop_done;
            loop = some (pos s.guard.loops);
            best_ic = some best_ic;
            llm_cost_usd = some s.guard.llm_cost_usd;
            message = some (fw.loop_text ++ show_ℕ s.guard.loops);
          })
          s

  abbrev pub stop_or : Option Reason → F → Run F W (Option F) → Run F W (Option F)
  stop_or (some reason) best_ic go = pure (some best_ic)
  stop_or none best_ic go = go

  -- The end of a round: the loops may be used up.
  abbrev pub go_on : F → Run F W (Option F) → Run F W (Option F)
  go_on ic more s = if is_out s.guard then (ok (some ic), s) else more s

  -- `_run_stub`, which always gives "budget_exceeded"; `none` means that the fuel ran out.
  unfoldable pub run_stub : ℕ → F → Run F W (Option F)
  unfolding exceeded one_loop
  run_stub zero best_ic = pure none
  run_stub (suc fuel) best_ic =
      let ic = wr.round4 (fl.add best_ic fw.ic_step) in
      let more = run_stub fuel ic in
      exceeded mc >>= λ reason. stop_or reason best_ic (one_loop ic >> go_on ic more)

  -- Each round counts a loop, so there are at most as many as the budget has.
  abbrev pub enough : Work F W → ℕ
  enough s = suc (pos_part s.guard.max_loops)

  abbrev pub result_for : Option F → Run F W (RunResult F)
  result_for none = raise (codes "out of fuel")
  result_for (some ic) = pure (stub_result fw ic)

  -- The body of the `try`.
  unfoldable pub research : Run F W (RunResult F)
  unfolding run_stub stub_result event
  research s =
      ((event mc (note started fw.started_text) >> run_stub (enough s) fw.start_ic) >>= result_for)
        s

  abbrev pub report_end : ℕ → Bool → Run F W ℕ
  report_end package_id true = complete mc budget_exceeded (some package_id) >> pure 0
  report_end package_id false = complete mc failed (some package_id) >> pure 2

  abbrev pub finish : ℕ → RunResult F → Result Text (Manifest F) → Run F W ℕ
  finish package_id result (err e) s = (err e, s)
  finish package_id result (ok m) s =
      (upload_artifact mc (wr.zip m result) >>= report_end package_id)
        (write_file (codes "package.zip") (wr.zip m result) s)

  -- `main` after the research went through.
  unfoldable pub deliver : ℕ → Text → RunResult F → Run F W ℕ
  unfolding to_manifest
  deliver package_id data_snapshot result s =
      finish package_id result (to_manifest result package_id data_snapshot)
        (write_file (codes "result.json") (wr.dump_result result) s)

  -- The handler of the `try`.
  unfoldable pub give_up : Text → Run F W ℕ
  unfolding event complete
  give_up e = do event mc (note error (take 200 e)); complete mc failed none; pure 1

  abbrev pub after : ℕ → Text → Result Text (RunResult F) → Run F W ℕ
  after package_id data_snapshot (ok result) = deliver package_id data_snapshot result
  after package_id data_snapshot (err e) = give_up e

  unfoldable pub main : ℕ → Text → Run F W ℕ
  unfolding research deliver give_up
  main package_id data_snapshot s = after package_id data_snapshot (research s).0 (research s).1
