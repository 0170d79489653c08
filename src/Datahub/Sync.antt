-- ===== src/Datahub/Sync.antt =====
-- packages/datahub/src/signal_datahub/sync.py: what the providers answer during a call is an
-- argument, as the day, the clock and the uuid of the run are.
mod Providers
use signal_lab.Common.{
  ℕ, ◌+◌, ◌-◌, leb, ltb, Bool, true, false, not, ◌&&◌, Option, none, some, List, [], ◌∷◌, ◌++◌,
  if◌then◌else◌, select, take, length, Result, ok, err, Transaction, commit, rollback, write,
}
use signal_lab.Common.Float.{Floats}
use signal_lab.Common.Text.{Text, codes}
use signal_lab.Common.TextSet.{is_in}
use signal_lab.Datahub.Symbols.{is_index_symbol}
use signal_lab.Datahub.Upsert.{find}
use signal_lab.Datahub.Repo.{
  Quote, DailyBar, SyncStatus, succeeded, partial, failed, bars_asked, bars_done, instruments_done,
  run_error, Db, upsert_instruments, upsert_daily_bars, last_trade_date, get_bar, start_sync_run,
  finish_sync_run,
}
unfoldable pub use Providers.*

-- What was counted: symbols that went well, rows, and failures.
pub record Tally : Type 0 where
  pub well : ℕ
  pub rows : ℕ
  pub failures : List (Text × Text)

pub record SyncReport : Type 0 where
  pub status : SyncStatus
  pub well : ℕ
  pub rows : ℕ
  pub failed : ℕ

abbrev pub status_of : Tally → SyncStatus
status_of t = elim t.failures [ [] ↦ succeeded | f ∷ fs ↦ if ltb 0 t.well then partial else failed ]

module _ {F : Type 0} ⦃fl : Floats F⦄ (providers : List (Provider F)) (now : ℕ) where
  abbrev pub absolute : F → F
  absolute x = if fl.lt x (fl.lit 0 0) then fl.neg x else x

  abbrev pub drifts : F → F → Bool
  drifts new old =
      not (fl.eq old (fl.lit 0 0))
      && fl.lt (fl.lit 1 4) (fl.div (absolute (fl.sub new old)) (absolute old))

  abbrev pub drifted_from : Option (Quote F) → Option (DailyBar F) → Bool
  drifted_from none old = false
  drifted_from (some q) none = false
  drifted_from (some q) (some b) = drifts q.qfq_factor b.quote.qfq_factor

  abbrev pub at_date : ℕ → Quote F → Bool
  at_date d q = leb d q.trade_date && leb q.trade_date d

  unfoldable pub factor_drifted : Db F → Text → ℕ → List (Quote F) → Bool
  unfolding is_index_symbol get_bar
  factor_drifted db symbol overlap rows =
      not (is_index_symbol symbol)
      && drifted_from (find (at_date overlap) rows) (get_bar symbol overlap db)

  abbrev pub fetch_bars : Text → ℕ → ℕ → Result Fault (List (Quote F) × Text)
  fetch_bars symbol start until = try_each (λ p. p.fetch_daily_bars symbol start until) providers

  abbrev pub pulled :
      Result Fault (List (Quote F) × Text) → Result Text (Option (List (Quote F) × Text))
  pulled (ok r) = ok (some r)
  pulled (err e) = err (text_of e)

  -- After the rows from the last stored day on: all of them again, or those of later days.
  abbrev pub overlapped :
      Db F
      → Text
      → ℕ
      → ℕ
      → ℕ
      → Result Fault (List (Quote F) × Text)
      → Result Text (Option (List (Quote F) × Text))
  overlapped db symbol start until last (err e) = err (text_of e)
  overlapped db symbol start until last (ok (rows, source)) =
      if factor_drifted db symbol last rows
      then pulled (fetch_bars symbol start until)
      else ok (some (select (λ q. ltb last q.trade_date) rows, source))

  abbrev pub since : Db F → Text → ℕ → ℕ → Option ℕ → Result Text (Option (List (Quote F) × Text))
  since db symbol start until none = pulled (fetch_bars symbol start until)
  since db symbol start until (some last) =
      if leb until last
      then ok none
      else overlapped db symbol start until last (fetch_bars symbol last until)

  -- The rows to store for a symbol, and where they are from; none if it is up to date.
  unfoldable pub pull : Bool → Text → ℕ → ℕ → Db F → Result Text (Option (List (Quote F) × Text))
  unfolding try_each factor_drifted last_trade_date
  pull incremental symbol start until db =
      since db symbol start until (if incremental then last_trade_date symbol db else none)

  abbrev pub counted : ℕ → Tally → Tally
  counted n t = record t { well = t.well + 1; rows = t.rows + n }

  abbrev pub failing : Text → Text → Tally → Tally
  failing symbol e t = record t { failures = t.failures ++ (symbol, take 200 e) ∷ [] }

  abbrev pub stored :
      Text → ℕ → Result Text (Db F) → Transaction (Db F) × Tally → Transaction (Db F) × Tally
  stored symbol n (ok db) (s, t) = (commit (write (λ _. db) s), counted n t)
  stored symbol n (err e) (s, t) = (rollback s, failing symbol e t)

  abbrev pub after_pull :
      Text
      → Result Text (Option (List (Quote F) × Text))
      → Transaction (Db F) × Tally
      → Transaction (Db F) × Tally
  after_pull symbol (err e) (s, t) = (rollback s, failing symbol e t)
  after_pull symbol (ok none) (s, t) = (s, counted 0 t)
  after_pull symbol (ok (some (rows, source))) (s, t) =
      stored symbol (length rows) (upsert_daily_bars now symbol source rows s.current) (s, t)

  unfoldable pub sync_symbol :
      Bool → ℕ → ℕ → Text → Transaction (Db F) × Tally → Transaction (Db F) × Tally
  unfolding pull upsert_daily_bars
  sync_symbol incremental start until symbol (s, t) =
      after_pull symbol (pull incremental symbol start until s.current) (s, t)

  unfoldable pub sync_each :
      Bool → ℕ → ℕ → List Text → Transaction (Db F) × Tally → Transaction (Db F) × Tally
  unfolding sync_symbol
  sync_each incremental start until [] p = p
  sync_each incremental start until (symbol ∷ symbols) p =
      sync_each incremental start until symbols (sync_symbol incremental start until symbol p)

  abbrev pub no_tally : Tally
  no_tally = record { well = 0; rows = 0; failures = [] }

  abbrev pub close_run : ℕ → Transaction (Db F) × Tally → SyncReport × Transaction (Db F)
  close_run id (s, t) = (
    record { status = status_of t; well = t.well; rows = t.rows; failed = length t.failures },
    commit (write (finish_sync_run id now (status_of t) (bars_done t.well t.rows t.failures)) s),
  )

  unfoldable pub sync_daily_bars :
      ℕ → List Text → ℕ → ℕ → Bool → Transaction (Db F) → SyncReport × Transaction (Db F)
  unfolding sync_each start_sync_run finish_sync_run
  sync_daily_bars id symbols start until incremental s =
      let opened =
        write
          (start_sync_run id now (codes "daily_bars")
            (bars_asked (length symbols) start until ∷ []))
          s in
      close_run id (sync_each incremental start until symbols (commit opened, no_tally))

  -- The handler of sync_instruments: the row of the run is rolled back before it is written to.
  abbrev pub give_up : ℕ → Text → Transaction (Db F) → Result Text (ℕ × Text) × Transaction (Db F)
  give_up id e s =
      (err e, commit (write (finish_sync_run id now failed (run_error e)) (rollback s)))

  abbrev pub keep_instruments :
      ℕ
      → ℕ
      → Text
      → Result Text (Db F)
      → Transaction (Db F)
      → Result Text (ℕ × Text) × Transaction (Db F)
  keep_instruments id n source (err e) s = give_up id e s
  keep_instruments id n source (ok db) s = (
    ok (n, source),
    commit
        (write (finish_sync_run id now succeeded (instruments_done n source)) (write (λ _. db) s)),
  )

  abbrev pub with_instruments :
      ℕ
      → Result Fault (List (Text × Text × Text) × Text)
      → Transaction (Db F)
      → Result Text (ℕ × Text) × Transaction (Db F)
  with_instruments id (err e) s = give_up id (text_of e) s
  with_instruments id (ok (rows, source)) s =
      keep_instruments id (length rows) source (upsert_instruments now rows s.current) s

  unfoldable pub sync_instruments :
      ℕ → Transaction (Db F) → Result Text (ℕ × Text) × Transaction (Db F)
  unfolding try_each start_sync_run finish_sync_run upsert_instruments
  sync_instruments id s =
      with_instruments id (try_each (λ p. p.fetch_instruments) providers)
        (write (start_sync_run id now (codes "instruments") []) s)

  unfoldable pub sync_index_constituents : Text → Result Fault (List Text × Text)
  unfolding try_each
  sync_index_constituents code = try_each (λ p. p.fetch_index_constituents code) providers

  abbrev pub with_benchmark : List Text → List Text
  with_benchmark symbols = if is_in benchmark symbols then symbols else benchmark ∷ symbols

  abbrev pub over_constituents :
      ℕ
      → ℕ
      → ℕ
      → Result Fault (List Text × Text)
      → Transaction (Db F)
      → Result Text SyncReport × Transaction (Db F)
  over_constituents id today lookback (err e) s = (err (text_of e), s)
  over_constituents id today lookback (ok (symbols, source)) s =
      let r = sync_daily_bars id (with_benchmark symbols) (today - lookback) today true s in
      (ok r.0, r.1)

  unfoldable pub daily_incremental :
      ℕ → ℕ → ℕ → Transaction (Db F) → Result Text SyncReport × Transaction (Db F)
  unfolding sync_daily_bars sync_index_constituents
  daily_incremental id today lookback =
      over_constituents id today lookback (sync_index_constituents (codes "000300"))
