-- ===== src/Tracker/Service/Refresh.antt =====
-- What ImportService works on, and `refresh_recommendation` (signal_tracker/service.py, ports.py).
use signal_lab.Common.{
  ℕ, Option, none, some, List, [], ◌∷◌, Result, ok, err, Exec, ◌>>=◌, ◌>>◌, pure, raise, modify,
  Transaction, commit, write,
}
use signal_lab.Common.Float.{Floats}
use signal_lab.Common.Text.{Text, codes}
use signal_lab.Tracker.Models.{ExtractedRec, Recommendation}
use signal_lab.Tracker.Repo.{Db, get_recommendation, update_rec, upsert_performance}
use signal_lab.Tracker.EventStudy.{
  Bar, Baseline, day_of, anchor_baseline, compute_windows, trading_days_ahead,
}

-- A datetime without a zone, and one with a zone; both as the clock of the market shows them.
pub data Stamp : Type 0 where
  naive aware : ℕ → Stamp

-- `ChatMessage`; a time where the text has one.
pub record ChatMessage : Type 0 where
  pub speaker : Text
  pub message_time : Option Stamp
  pub text : Text
  pub raw_block : Text

-- `BarsReader`, of ports.py: a call that fails raises.
pub record BarsReader (F : Type 0) : Type 0 where
  pub get_qfq_bars : Text → ℕ → ℕ → Result Text (List (Bar F))
  pub list_aliases : List (Text × Text)

pub data Error : Type 0 where
  unknown_rec : ℕ → Error
  raised : Text → Error

abbrev pub benchmark : Text
benchmark = codes "000300.SH"

-- `_extract`: the answer of the language model where there is one and it did not fail.
unfoldable pub extract :
    {F : Type 0}
    → Option (Result Text (List (ExtractedRec F)))
    → List (ExtractedRec F)
    → List (ExtractedRec F)
extract (some (ok items)) by_rules = items
extract (some (err e)) by_rules = by_rules
extract none by_rules = by_rules

abbrev pub Session : Type 0 → Type 0
Session F = Transaction (Db F)

module _ {F : Type 0} where
  abbrev pub fetch : Result Text (List (Bar F)) → Exec (Session F) Error (List (Bar F))
  fetch (ok bars) = pure bars
  fetch (err e) = raise (raised e)

  abbrev pub set_baseline : Baseline F → Recommendation F → Recommendation F
  set_baseline b r = record r {
    baseline_date = some b.date;
    baseline_price = some b.price;
    baseline_rule = some b.rule;
  }

  abbrev pub save_baseline : ℕ → Baseline F → Db F → Db F
  save_baseline id b db = record db { recs = update_rec id (set_baseline b) db.recs }

module _ {F : Type 0} ⦃fl : Floats F⦄ (reader : BarsReader F) (now : ℕ) where
  -- `refresh_recommendation` after the baseline was found.
  unfoldable pub refresh_from :
      Recommendation F → ℕ → List (Bar F) → Option (Baseline F) → Exec (Session F) Error (Unit {0})
  refresh_from rec until bars none = pure tt
  refresh_from rec until bars (some b) = do
    modify (write (save_baseline rec.id b))
    bench ← fetch (reader.get_qfq_bars benchmark b.date until)
    modify (λ s. commit (
        write
          (upsert_performance now rec.id
            (compute_windows bars b bench rec.target_price rec.stop_loss))
          s))

  unfoldable pub refresh_with :
      Recommendation F → ℕ → List (Bar F) → Exec (Session F) Error (Unit {0})
  unfolding refresh_from
  refresh_with rec until [] = pure tt
  refresh_with rec until (bar ∷ bars) =
      refresh_from rec until (bar ∷ bars) (anchor_baseline rec.message_time (bar ∷ bars))

  abbrev pub refresh_symbol : Recommendation F → Option Text → Exec (Session F) Error (Unit {0})
  refresh_symbol rec (some (c ∷ symbol)) = do
    let start = day_of rec.message_time
    let until = trading_days_ahead start 60
    bars ← fetch (reader.get_qfq_bars (c ∷ symbol) start until)
    refresh_with rec until bars
  refresh_symbol rec _ = pure tt

  abbrev pub refresh_found : Option (Recommendation F) → Exec (Session F) Error (Unit {0})
  refresh_found none = pure tt
  refresh_found (some rec) = refresh_symbol rec rec.symbol

  unfoldable pub refresh_recommendation : ℕ → Exec (Session F) Error (Unit {0})
  unfolding refresh_with
  refresh_recommendation id s = refresh_found (get_recommendation id s.current.recs) s
