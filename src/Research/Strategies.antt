-- ===== src/Research/Strategies.antt =====
-- packages/research/src/signal_research/service.py: a package that a runner uploads becomes a
-- strategy, and a strategy gives the signals of a day.
use signal_lab.Common.{
  ℕ, ◌-◌, ◌==◌, Bool, false, not, Option, none, some, List, [], ◌∷◌, map, if◌then◌else◌, Result, ok,
  err, Exec,
}
use signal_lab.Common.Text.{Text, codes, text_eq}
use signal_lab.Common.Float.{Floats}
use signal_lab.Contracts.Events.{verify_signature}
use signal_lab.Contracts.Package.{Manifest, FactorSpec, make_manifest}
use signal_lab.Research.Models.{
  ResearchJob, Strategy, VerifiedMetrics, StrategySignal, SignalAction,
}
use signal_lab.Research.Repo.{get_job, insert_strategy, get_strategy, upsert_strategy_signals}
use signal_lab.Research.Ports.{Bar, MarketBarsPort, Decoders}
use signal_lab.Research.Session.{
  Error, unknown_job, unknown_strategy, bad_signature, bad_package, not_verified, raised, Session,
  save,
}
use signal_lab.Research.Validator.{
  PackageError, bad_archive, load_package, Statistics, VerifyError, bad_expression, no_valid_ic,
  below_minimum, wrong_sign, raised_in_verify, independent_verify,
}
use signal_lab.Research.Ranking.{generate_signals_for_date}

-- `path.write_bytes(data)`
unfoldable pub write_artifact : ℕ → Text → List (ℕ × Text) → List (ℕ × Text)
write_artifact job bytes [] = (job, bytes) ∷ []
write_artifact job bytes ((k, b) ∷ files) =
    if k == job then (job, bytes) ∷ files else (k, b) ∷ write_artifact job bytes files

-- `signature and not verify_signature(...)`
abbrev pub is_forged : Option Text → (Text → Bool) → Bool
is_forged none good = false
is_forged (some []) good = false
is_forged (some (c ∷ s)) good = not (good (c ∷ s))

abbrev package_error : PackageError → Error
package_error (bad_archive e) = raised e
package_error _ = bad_package

abbrev verify_failure : VerifyError → Error
verify_failure bad_expression = not_verified (codes "expression")
verify_failure no_valid_ic = not_verified (codes "no valid IC")
verify_failure below_minimum = not_verified (codes "IC below the minimum")
verify_failure wrong_sign = not_verified (codes "IC of the other sign")
verify_failure (raised_in_verify e) = raised e

abbrev first_name : List FactorSpec → Text
first_name [] = []
first_name (f ∷ fs) = f.name

module _ {F : Type 0} where
  -- `bars_map[s] = df`, in a dict.
  unfoldable pub put_bars :
      Text → List (Bar F) → List (Text × List (Bar F)) → List (Text × List (Bar F))
  put_bars symbol bars [] = (symbol, bars) ∷ []
  put_bars symbol bars ((s, b) ∷ rest) =
      if text_eq s symbol then (s, bars) ∷ rest else (s, b) ∷ put_bars symbol bars rest

  -- The symbols that have bars between two days.
  unfoldable pub bars_map :
      MarketBarsPort F → ℕ → ℕ → List Text → List (Text × List (Bar F)) → List (Text × List (Bar F))
  unfolding put_bars
  bars_map market start end_ [] acc = acc
  bars_map market start end_ (s ∷ symbols) acc = elim (market.get_qfq_bars s start end_) [
    | [] ↦ bars_map market start end_ symbols acc
    | b ∷ bars ↦ bars_map market start end_ symbols (put_bars s (b ∷ bars) acc)
  ]

  abbrev pub new_strategy : ℕ → ℕ → ℕ → Manifest F → VerifiedMetrics F → Strategy F
  new_strategy id now job m verified = record {
    id = id;
    package_id = m.package_id;
    job_id = some job;
    producer = m.producer;
    name = first_name m.factors;
    universe = m.universe;
    data_snapshot = m.data_snapshot;
    signal_protocol = m.signal_protocol;
    manifest = m;
    metrics = m.metrics_summary;
    verified_metrics = verified;
    created_at = now;
  }

  abbrev signal_of : ℕ → ℕ → Text × SignalAction × F → StrategySignal F
  signal_of strategy date r = record {
    strategy_id = strategy;
    trade_date = date;
    symbol = r.0;
    score = r.2;
    action = r.1;
  }

module _ {F : Type 0} ⦃fl : Floats F⦄ (market : MarketBarsPort F) (stats : Statistics F) where
  abbrev signals_of :
      ℕ → Strategy F → Option (Manifest F) → Result Text (List (Text × SignalAction × F))
  signals_of date strat none = err (codes "ValidationError")
  signals_of date strat (some m) =
      let symbols = market.list_universe_symbols strat.universe 20 in
      generate_signals_for_date stats m (bars_map market (date - 90) date symbols []) date

module _ {F E J : Type 0} ⦃fl : Floats F⦄ (d : Decoders F J) (market : MarketBarsPort F)
    (stats : Statistics F) where
  -- The strategy is inserted, or found, and the job points at it.
  unfoldable pub store_strategy :
      ℕ
      → ℕ
      → ResearchJob F
      → Manifest F
      → Result VerifyError (VerifiedMetrics F)
      → Exec (Session F E) Error (Strategy F)
  unfolding insert_strategy
  store_strategy id now j m (err e) s = (err (verify_failure e), s)
  store_strategy id now j m (ok verified) s =
      let (strat, rows) = insert_strategy (new_strategy id now j.id m verified) s.db.strategies in
      (
        ok strat,
        save (record j { strategy_id = some strat.id })
            (record s { db = record (s.db) { strategies = rows } }),
      )

  unfoldable pub import_package :
      ℕ
      → ℕ
      → ℕ
      → ResearchJob F
      → Result PackageError (Manifest F)
      → Exec (Session F E) Error (Strategy F)
  unfolding store_strategy independent_verify bars_map
  import_package id now today j (err e) s = (err (package_error e), s)
  import_package id now today j (ok m) s =
      let symbols = market.list_universe_symbols m.universe 10 in
      let bars = bars_map market (today - 120) today symbols [] in
      store_strategy id now j m (independent_verify stats m bars) s

  unfoldable pub artifact_found :
      ℕ → ℕ → ℕ → ℕ → Text → Option (ResearchJob F) → Exec (Session F E) Error (Strategy F)
  unfolding write_artifact load_package
  artifact_found id now today job bytes none s = (err (unknown_job job), s)
  artifact_found id now today job bytes (some j) s =
      import_package id now today j (load_package d bytes)
        (record s { artifacts = write_artifact job bytes s.artifacts })

  -- `id` is fresh, and `today` the date of the call.
  unfoldable pub handle_artifact :
      ℕ → ℕ → ℕ → ℕ → Text → Option Text → Text → Exec (Session F E) Error (Strategy F)
  unfolding artifact_found
  handle_artifact id now today job bytes signature secret s =
      if is_forged signature (verify_signature d.hmac secret bytes)
      then (err bad_signature, s)
      else artifact_found id now today job bytes (get_job job s.db.jobs) s

  unfoldable pub store_signals :
      ℕ → ℕ → Result Text (List (Text × SignalAction × F)) → Exec (Session F E) Error ℕ
  unfolding upsert_strategy_signals
  store_signals strategy date (err e) s = (err (raised e), s)
  store_signals strategy date (ok rows) s =
      let (n, table) = upsert_strategy_signals (map (signal_of strategy date) rows) s.db.signals in
      (ok n, record s { db = record (s.db) { signals = table } })

  unfoldable pub signals_found : ℕ → ℕ → Option (Strategy F) → Exec (Session F E) Error ℕ
  unfolding store_signals generate_signals_for_date bars_map make_manifest
  signals_found strategy date none s = (err (unknown_strategy strategy), s)
  signals_found strategy date (some strat) s =
      store_signals strategy date
        (signals_of market stats date strat (make_manifest strat.manifest)) s

  -- The number of the rows.
  unfoldable pub generate_signals : ℕ → ℕ → Exec (Session F E) Error ℕ
  generate_signals strategy date s =
      signals_found strategy date (get_strategy strategy s.db.strategies) s
