-- ===== src/Datahub/Repo.antt =====
-- packages/datahub/src/signal_datahub/models.py and repo.py: the tables and their reads and writes.
use signal_lab.Common.{
  ℕ, ◌==◌, leb, ltb, Bool, ◌&&◌, Option, none, some, List, [], ◌∷◌, ◌++◌, map, if◌then◌else◌,
  select, sort_by, take, Result, ok, err,
}
use mathlib.Core.List.{reverse}
use signal_lab.Common.Int.{ℤ}
use signal_lab.Common.Text.{Text, codes, text_eq}
use signal_lab.Datahub.Upsert.{find, upsert}

-- A row of the frame of a provider.
pub record Quote (F : Type 0) : Type 0 where
  pub trade_date : ℕ
  pub open_price : F
  pub high : F
  pub low : F
  pub close : F
  pub volume : ℤ
  pub amount : F
  pub qfq_factor : F

pub record DailyBar (F : Type 0) : Type 0 where
  pub symbol : Text
  pub quote : Quote F
  pub source : Text
  pub updated_at : ℕ

pub record Instrument : Type 0 where
  pub symbol : Text
  pub name : Text
  pub aliases : List Text
  pub exchange : Text
  pub status : Text
  pub updated_at : ℕ

pub data SyncStatus : Type 0 where
  running succeeded partial failed : SyncStatus

-- The keys that `detail` gets, in the order in which they are merged.
pub data Detail : Type 0 where
  bars_asked : ℕ → ℕ → ℕ → Detail
  bars_done : ℕ → ℕ → List (Text × Text) → Detail
  instruments_done : ℕ → Text → Detail
  run_error : Text → Detail

pub record SyncRun : Type 0 where
  pub id : ℕ
  pub job_type : Text
  pub status : SyncStatus
  pub started_at : ℕ
  pub finished_at : Option ℕ
  pub detail : List Detail

pub record Db (F : Type 0) : Type 0 where
  pub instruments : List Instrument
  pub bars : List (DailyBar F)
  pub runs : List SyncRun

abbrev pub same_instrument : Instrument → Instrument → Bool
same_instrument a b = text_eq a.symbol b.symbol

abbrev pub instrument_row : ℕ → Text × Text × Text → Instrument
instrument_row now (symbol, name, exchange) = record {
  symbol = symbol;
  name = name;
  aliases = [];
  exchange = exchange;
  status = codes "active";
  updated_at = now;
}

abbrev pub later_of : Option ℕ → ℕ → Option ℕ
later_of none d = some d
later_of (some m) d = some (if ltb m d then d else m)

abbrev pub ended : SyncStatus → ℕ → Detail → SyncRun → SyncRun
ended status now detail r = record r {
  status = status;
  finished_at = some now;
  detail = r.detail ++ detail ∷ [];
}

module _ {F : Type 0} where
  abbrev pub same_bar : DailyBar F → DailyBar F → Bool
  same_bar a b = text_eq a.symbol b.symbol && a.quote.trade_date == b.quote.trade_date

  abbrev pub bar_row : Text → Text → ℕ → Quote F → DailyBar F
  bar_row symbol source now q = record {
    symbol = symbol;
    quote = q;
    source = source;
    updated_at = now;
  }

  abbrev pub set_instruments : Db F → Result Text (List Instrument) → Result Text (Db F)
  set_instruments db (ok t) = ok (record db { instruments = t })
  set_instruments db (err e) = err e

  -- The columns of the update are all but the key, `aliases` too.
  unfoldable pub upsert_instruments : ℕ → List (Text × Text × Text) → Db F → Result Text (Db F)
  unfolding upsert
  upsert_instruments now rows db =
      set_instruments db (upsert same_instrument (map (instrument_row now) rows) db.instruments)

  abbrev pub set_bars : Db F → Result Text (List (DailyBar F)) → Result Text (Db F)
  set_bars db (ok t) = ok (record db { bars = t })
  set_bars db (err e) = err e

  unfoldable pub upsert_daily_bars : ℕ → Text → Text → List (Quote F) → Db F → Result Text (Db F)
  unfolding upsert
  upsert_daily_bars now symbol source rows db =
      set_bars db (upsert same_bar (map (bar_row symbol source now) rows) db.bars)

  abbrev pub is_of : Text → DailyBar F → Bool
  is_of symbol b = text_eq b.symbol symbol

  abbrev pub is_at : Text → ℕ → DailyBar F → Bool
  is_at symbol date b = text_eq b.symbol symbol && b.quote.trade_date == date

  unfoldable pub max_date : List (DailyBar F) → Option ℕ → Option ℕ
  max_date [] m = m
  max_date (b ∷ bs) m = max_date bs (later_of m b.quote.trade_date)

  unfoldable pub last_trade_date : Text → Db F → Option ℕ
  unfolding max_date
  last_trade_date symbol db = max_date (select (is_of symbol) db.bars) none

  unfoldable pub get_bar : Text → ℕ → Db F → Option (DailyBar F)
  get_bar symbol date db = find (is_at symbol date) db.bars

  abbrev pub within : ℕ → ℕ → DailyBar F → Bool
  within start until b = leb start b.quote.trade_date && leb b.quote.trade_date until

  unfoldable pub get_bars : Text → ℕ → ℕ → Db F → List (DailyBar F)
  get_bars symbol start until db =
      sort_by (λ b. b.quote.trade_date)
        (select (λ b. is_of symbol b && within start until b) db.bars)

  unfoldable pub start_sync_run : ℕ → ℕ → Text → List Detail → Db F → Db F
  start_sync_run id now job_type detail db = record db {
    runs =
        db.runs
        ++ record {
          id = id;
          job_type = job_type;
          status = running;
          started_at = now;
          finished_at = none;
          detail = detail;
        }
          ∷ [];
  }

  -- A write to the object of the run is a write to the row of its id, where there is one.
  unfoldable pub finish_sync_run : ℕ → ℕ → SyncStatus → Detail → Db F → Db F
  finish_sync_run id now status detail db = record db {
    runs = map (λ r. if r.id == id then ended status now detail r else r) db.runs;
  }

  unfoldable pub recent_sync_runs : ℕ → Db F → List SyncRun
  recent_sync_runs limit db = take limit (reverse (sort_by (λ r. r.started_at) db.runs))
