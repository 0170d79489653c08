-- ===== src/Datahub/Account/Untouched.antt =====
-- What a synchronisation leaves alone (signal_datahub/sync.py, repo.py).
use signal_lab.Common.{
  ℕ, ◌==◌, ◌≡◌, refl, sym, ap, ◌∙◌, arith, Bool, true, false, ◌&&◌, ◌||◌, Option, none, some, List,
  [], ◌∷◌, map, length, All, any, if◌then◌else◌, Result, ok, err, Transaction, Both,
}
use signal_lab.Common.Float.{Floats}
use signal_lab.Common.Text.{Text, codes, text_eq, text_eq_iff}
use signal_lab.Common.TextSet.{is_in, text_eq_sym}
use signal_lab.Datahub.Upsert.{
  find, upsert, repeats, last_or_old, last_or_old_skips, IsKey, find-upsert_each,
}
use signal_lab.Datahub.Repo.{
  Quote, DailyBar, bars_asked, Db, same_bar, bar_row, is_at, upsert_daily_bars, get_bar,
  start_sync_run, set_bars,
}
use signal_lab.Datahub.Sync.{Provider, Tally, pull, stored, after_pull, sync_symbol, sync_each}

and_parts : (a b : Bool) → a && b ≡ true → (a ≡ true) × (b ≡ true)
and_parts true b h = (refl, h)
and_parts false b h = absurd (ground (arith, h))

not_in :
    (symbol of : Text) (symbols : List Text)
    → is_in symbol (of ∷ symbols) ≡ false
    → (text_eq of symbol ≡ false) × (is_in symbol symbols ≡ false)
unfolding any
not_in symbol of symbols h =
    let h' : text_eq symbol of || is_in symbol symbols ≡ false = h in
    (text_eq_sym of symbol ∙ ground (arith, h'), ground (arith, h'))

module _ {F : Type 0} where
  is_at-IsKey : (symbol : Text) (date : ℕ) → IsKey (DailyBar F) same_bar (is_at symbol date)
  is_at-IsKey symbol date = record {
    respects = λ x y e.
        let (same, day) = and_parts (text_eq x.symbol y.symbol) _ e in
        let same' = (text_eq_iff x.symbol y.symbol).0 same in
        let day' : x.quote.trade_date ≡ y.quote.trade_date = ground (arith, day) in
        ap (λ t. text_eq t symbol && x.quote.trade_date == date) same'
        ∙ ap (λ d. text_eq y.symbol symbol && d == date) day';
    unique = λ x y hx hy.
        let (atx, dayx) = and_parts (text_eq x.symbol symbol) _ hx in
        let (aty, dayy) = and_parts (text_eq y.symbol symbol) _ hy in
        let ex = (text_eq_iff x.symbol symbol).0 atx in
        let ey = (text_eq_iff y.symbol symbol).0 aty in
        let same : text_eq x.symbol y.symbol ≡ true =
          (text_eq_iff x.symbol y.symbol).1 (ex ∙ sym ey) in
        ground (arith, same, dayx, dayy);
  }

  set_bars_ok :
      (b : Bool) (x : Text) (t : List (DailyBar F)) (db db' : Db F)
      → set_bars db (if b then err x else ok t) ≡ ok db'
      → db' ≡ record db { bars = t }
  set_bars_ok true x t db db' e = absurd (ground (arith, e))
  set_bars_ok false x t db db' e = ap (λ r. elim r [ ok d ↦ d | err y ↦ db ]) (sym e)

  -- Rows that are stored are found at their keys, and at every other key what was there before.
  pub upsert_daily_bars-get :
      (now : ℕ) (of source : Text) (rows : List (Quote F)) (db db' : Db F) (symbol : Text)
      (date : ℕ)
      → upsert_daily_bars now of source rows db ≡ ok db'
      → get_bar symbol date db'
        ≡ last_or_old
            (is_at symbol date)
            (map (bar_row of source now) rows)
            (get_bar symbol date db)
  unfolding upsert upsert_daily_bars get_bar
  upsert_daily_bars-get now of source rows db db' symbol date e =
      let new = map (bar_row of source now) rows in
      ap (λ d. find (is_at symbol date) d.bars) (set_bars_ok (repeats same_bar new) _ _ db db' e)
      ∙ find-upsert_each same_bar (is_at symbol date) (is_at-IsKey symbol date) new db.bars

  rows_differ :
      (now date : ℕ) (of source symbol : Text) (rows : List (Quote F))
      → text_eq of symbol ≡ false
      → All (λ x. is_at symbol date x ≡ false) (map (bar_row of source now) rows)
  rows_differ now date of source symbol [] h = tt
  rows_differ now date of source symbol (q ∷ rows) h =
      (rw h refl, rows_differ now date of source symbol rows h)

-- What a key has in both places.
abbrev Holds : {F : Type 0} → Text → ℕ → Option (DailyBar F) → Db F → Type 0
Holds symbol date v db = get_bar symbol date db ≡ v

module _ {F : Type 0} ⦃fl : Floats F⦄ (providers : List (Provider F)) (now : ℕ) (symbol : Text)
    (date : ℕ) (v : Option (DailyBar F)) where
  abbrev pub Kept : Transaction (Db F) × Tally → Type 0
  Kept (s, t) = Both (Holds symbol date v) s

  stored-Kept :
      (of source : Text) (rows : List (Quote F)) (s : Transaction (Db F)) (t : Tally)
      → text_eq of symbol ≡ false
      → Kept (s, t)
      → (r : Result Text (Db F)) → upsert_daily_bars now of source rows s.current ≡ r
      → Kept (stored providers now of (length rows) r (s, t))
  stored-Kept of source rows s t h k (err x) e = (k.1, k.1)
  stored-Kept of source rows s t h k (ok db) e =
      let same =
        upsert_daily_bars-get now of source rows s.current db symbol date e
        ∙ last_or_old_skips (is_at symbol date) (map (bar_row of source now) rows)
            (get_bar symbol date s.current) (rows_differ now date of source symbol rows h)
        ∙ k.0 in
      (same, same)

  after_pull-Kept :
      (of : Text) (r : Result Text (Option (List (Quote F) × Text))) (s : Transaction (Db F))
      (t : Tally)
      → text_eq of symbol ≡ false
      → Kept (s, t)
      → Kept (after_pull providers now of r (s, t))
  after_pull-Kept of (err x) s t h k = (k.1, k.1)
  after_pull-Kept of (ok none) s t h k = k
  after_pull-Kept of (ok (some (rows, source))) s t h k =
      stored-Kept of source rows s t h k (upsert_daily_bars now of source rows s.current) refl

  pub sync_each-Kept :
      (incremental : Bool) (start until : ℕ) (symbols : List Text) (p : Transaction (Db F) × Tally)
      → is_in symbol symbols ≡ false
      → Kept p
      → Kept (sync_each providers now incremental start until symbols p)
  unfolding sync_each sync_symbol
  sync_each-Kept incremental start until [] p h k = k
  sync_each-Kept incremental start until (of ∷ symbols) (s, t) h k =
      let (others, rest) = not_in symbol of symbols h in
      sync_each-Kept incremental start until symbols _ rest
        (after_pull-Kept of (pull providers now incremental of start until s.current) s t others k)

  opened_bars :
      (id : ℕ) (n start until : ℕ) (s : Transaction (Db F))
      → get_bar symbol date s.current ≡ v
      → get_bar symbol date
          (start_sync_run id now (codes "daily_bars") (bars_asked n start until ∷ []) s.current)
        ≡ v
  unfolding get_bar start_sync_run
  opened_bars id n start until s h = h
