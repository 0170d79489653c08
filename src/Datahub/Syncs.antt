-- ===== src/Datahub/Syncs.antt =====
-- Synchronisations with two providers, the first of which always fails.
use signal_lab.Common.{
  ℕ, ◌+◌, ◌≡◌, ◌≤◌, ◌⊎◌, refl, Bool, true, false, Option, none, some, List, [], ◌∷◌, length, map,
  All, if◌then◌else◌, Result, ok, err, Transaction, arith,
}
use signal_lab.Common.Int.{ℤ, pos}
use signal_lab.Common.Fixed.{fixed}
use signal_lab.Common.Text.{Text, codes, text_eq}
use signal_lab.Common.TextSet.{is_in}
use signal_lab.Datahub.Repo.{Quote, partial, Db, Instrument, bar_row, get_bar}
use signal_lab.Datahub.Sync.{
  Provider, provider_error, SyncReport, sync_daily_bars, sync_instruments,
}
use signal_lab.Datahub.Account.Untouched.{upsert_daily_bars-get}
use signal_lab.Datahub.Account.{Says, sync_daily_bars_accounts}
use signal_lab.Datahub.Unrecorded.{sync_instruments_unrecorded}

abbrev quote : ℕ → ℕ → Quote ℤ
quote date factor = record {
  trade_date = date;
  open_price = pos 100000;
  high = pos 100000;
  low = pos 100000;
  close = pos 100000;
  volume = pos 5;
  amount = pos 500000;
  qfq_factor = pos factor;
}

abbrev down : Provider ℤ
down = record {
  name = codes "down";
  fetch_instruments = err (provider_error (codes "down"));
  fetch_index_constituents = λ code. err (provider_error (codes "down"));
  fetch_daily_bars = λ symbol start until. err (provider_error (codes "down"));
}

-- It knows one stock, and the instruments by a name.
abbrev up : Provider ℤ
up = record {
  name = codes "up";
  fetch_instruments = ok ((codes "600519.SH", codes "Moutai", codes "SH") ∷ []);
  fetch_index_constituents = λ code. ok (codes "600519.SH" ∷ []);
  fetch_daily_bars = λ symbol start until.
      if text_eq symbol (codes "600519.SH")
      then ok (quote 20010 10000 ∷ quote 20011 10000 ∷ [])
      else err (provider_error (codes "unknown"));
}

-- A stock whose factor was another one, and an alias of it.
abbrev before : Db ℤ
before = record {
  instruments =
      record {
        symbol = codes "600519.SH";
        name = codes "Moutai";
        aliases = codes "maotai" ∷ [];
        exchange = codes "SH";
        status = codes "active";
        updated_at = 1;
      }
      ∷ [];
  bars =
      bar_row (codes "600519.SH") (codes "up") 1 (quote 20000 20000)
      ∷ bar_row (codes "600519.SH") (codes "up") 1 (quote 20010 20000)
      ∷ [];
  runs = [];
}

abbrev session : Transaction (Db ℤ)
session = record { current = before; committed = before }

abbrev synced : SyncReport × Transaction (Db ℤ)
synced =
    sync_daily_bars (down ∷ up ∷ []) 9 1 (codes "600519.SH" ∷ codes "000001.SZ" ∷ []) 20005 20012
      true session

some_failed : synced.0.status ≡ partial
unfolding sync_daily_bars signal_lab.Common.select text_eq
    signal_lab.Datahub.Symbols.normalize_symbol signal_lab.Datahub.Symbols.full_match
    signal_lab.Common.Text.strip signal_lab.Common.any signal_lab.Common.Int.◌-ℤ◌
some_failed = refl

abbrev factor_at : ℕ → Db ℤ → Option ℤ
factor_at date db = elim (get_bar (codes "600519.SH") date db) [
  | none ↦ none
  | some b ↦ some b.quote.qfq_factor
]

-- The factor has changed, so the rows are fetched again, but only those since the asked start: the
-- older day keeps the old factor beside the new ones.
mixed_factors :
    (factor_at 20010 synced.1.committed ≡ some (pos 10000))
    × (factor_at 20000 synced.1.committed ≡ some (pos 20000))
unfolding get_bar sync_daily_bars signal_lab.Common.select text_eq
    signal_lab.Datahub.Symbols.normalize_symbol signal_lab.Datahub.Symbols.full_match
    signal_lab.Common.Text.strip signal_lab.Common.any signal_lab.Common.Int.◌-ℤ◌
mixed_factors = (refl, refl)

abbrev aliases_of : List Instrument → List (List Text)
aliases_of instruments = map (λ i. i.aliases) instruments

-- The aliases of an instrument that is known already are emptied.
aliases_lost : aliases_of (sync_instruments (up ∷ []) 9 1 session).1.committed.instruments ≡ [] ∷ []
unfolding sync_instruments signal_lab.Common.any text_eq
aliases_lost = refl

sync_daily_bars_accounts_example :
    let (r, t) = synced in
    (r.well + r.failed ≡ 2)
    × Says r
    × (t.current ≡ t.committed)
    × ((symbol : Text) (date : ℕ)
        → is_in symbol (codes "600519.SH" ∷ codes "000001.SZ" ∷ []) ≡ false
        → get_bar symbol date t.committed ≡ get_bar symbol date before)
sync_daily_bars_accounts_example =
    sync_daily_bars_accounts (down ∷ up ∷ []) 9 1 (codes "600519.SH" ∷ codes "000001.SZ" ∷ []) 20005
      20012 true session

sync_instruments_unrecorded_example :
    let r = (sync_instruments (down ∷ []) 9 1 session).0 in
    let t = (sync_instruments (down ∷ []) 9 1 session).1 in
    ((n : ℕ) × (source : Text) × (r ≡ ok (n, source)) × (t.current ≡ t.committed))
    ⊎ ((e : Text) × (r ≡ err e) × (t.current ≡ before) × (t.committed ≡ before))
sync_instruments_unrecorded_example = sync_instruments_unrecorded (down ∷ []) 9 1 session tt

abbrev of : Text
of = codes "600519.SH"

abbrev after : Db ℤ
after = record before {
  bars =
      bar_row of (codes "up") 1 (quote 20000 20000)
      ∷ bar_row of (codes "net") 9 (quote 20010 10000)
      ∷ [];
}

upsert_daily_bars-get_example :
    get_bar of 20010 after ≡ some (bar_row of (codes "net") 9 (quote 20010 10000))
unfolding get_bar text_eq signal_lab.Datahub.Repo.upsert_daily_bars signal_lab.Common.any
upsert_daily_bars-get_example =
    upsert_daily_bars-get 9 of (codes "net") (quote 20010 10000 ∷ []) before after of 20010 refl
