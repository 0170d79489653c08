-- ===== src/Datahub/Account.antt =====
-- What a synchronisation counts and what it leaves alone (signal_datahub/sync.py).
pub mod Untouched
use mathlib.Core.Path.{subst}
use signal_lab.Common.{
  ℕ, zero, suc, ◌+◌, ◌==◌, ◌≡◌, ◌≤◌, refl, sym, ap, ◌∙◌, ◌⊎◌, inl, inr, arith, Bool, true, false,
  ltb, ◌&&◌, ◌||◌, Option, none, some, List, [], ◌∷◌, ◌++◌, map, length, length-append, All, any,
  if◌then◌else◌, Result, ok, err, Transaction, commit, write, Both,
}
use signal_lab.Common.Float.{Floats}
use signal_lab.Common.Text.{Text, codes, text_eq, text_eq_iff}
use signal_lab.Common.TextSet.{is_in, text_eq_sym}
use signal_lab.Datahub.Upsert.{
  find, upsert, repeats, last_or_old, last_or_old_skips, IsKey, find-upsert_each,
}
use signal_lab.Datahub.Repo.{
  Quote, DailyBar, succeeded, partial, failed, bars_asked, Db, same_bar, bar_row, is_at,
  upsert_daily_bars, get_bar, finish_sync_run, start_sync_run, set_bars,
}
use signal_lab.Datahub.Sync.{
  Provider, Tally, SyncReport, status_of, no_tally, pull, stored, after_pull, sync_symbol,
  sync_each, sync_daily_bars,
}
pub use Untouched.*

-- What a status says of the counts.
abbrev pub Says : SyncReport → Type 0
Says r =
    ((r.status ≡ succeeded) × (r.failed ≡ 0))
    ⊎ ((r.status ≡ partial) × (1 ≤ r.failed) × (1 ≤ r.well))
    ⊎ ((r.status ≡ failed) × (1 ≤ r.failed) × (r.well ≡ 0))

module _ {F : Type 0} ⦃fl : Floats F⦄ (providers : List (Provider F)) (now : ℕ) where
  -- So many symbols were counted, and nothing is left uncommitted.
  Counted : ℕ → Transaction (Db F) × Tally → Type 0
  Counted n (s, t) = (t.well + length t.failures ≡ n) × (s.current ≡ s.committed)

  failed_more :
      (n well : ℕ) (fs : List (Text × Text)) (f : Text × Text)
      → well + length fs ≡ n
      → well + length (fs ++ f ∷ []) ≡ n + 1
  failed_more n well fs f h = omega (arith, length-append fs (f ∷ []), h)

  stored-Counted :
      (n : ℕ) (of : Text) (size : ℕ) (r : Result Text (Db F)) (s : Transaction (Db F)) (t : Tally)
      → Counted n (s, t)
      → Counted (n + 1) (stored providers now of size r (s, t))
  unfolding Counted
  stored-Counted n of size (err x) s t (h, k) = (failed_more n t.well t.failures _ h, refl)
  stored-Counted n of size (ok db) s t (h, k) = (omega (arith, h), refl)

  after_pull-Counted :
      (n : ℕ) (of : Text) (r : Result Text (Option (List (Quote F) × Text)))
      (s : Transaction (Db F)) (t : Tally)
      → Counted n (s, t)
      → Counted (n + 1) (after_pull providers now of r (s, t))
  unfolding Counted
  after_pull-Counted n of (err x) s t (h, k) = (failed_more n t.well t.failures _ h, refl)
  after_pull-Counted n of (ok none) s t (h, k) = (omega (arith, h), k)
  after_pull-Counted n of (ok (some (rows, source))) s t h =
      stored-Counted n of (length rows) (upsert_daily_bars now of source rows s.current) s t h

  sync_each-Counted :
      (incremental : Bool) (start until : ℕ) (symbols : List Text) (n : ℕ)
      (p : Transaction (Db F) × Tally)
      → Counted n p
      → Counted (n + length symbols) (sync_each providers now incremental start until symbols p)
  unfolding sync_each sync_symbol
  sync_each-Counted incremental start until [] n p h = subst (λ m. Counted m p) (omega arith) h
  sync_each-Counted incremental start until (of ∷ symbols) n (s, t) h =
      subst (λ m. Counted m (sync_each providers now incremental start until (of ∷ symbols) (s, t)))
        (omega arith)
        (sync_each-Counted incremental start until symbols (n + 1) _
          (after_pull-Counted n of (pull providers now incremental of start until s.current) s t h))

  status_of-Says :
      (well rows : ℕ) (fs : List (Text × Text))
      → Says (record {
        status = status_of (record { well = well; rows = rows; failures = fs });
        well = well;
        rows = rows;
        failed = length fs;
      })
  status_of-Says well rows [] = inl (refl, refl)
  status_of-Says zero rows (f ∷ fs) = inr (inr (refl, omega arith, refl))
  status_of-Says (suc well) rows (f ∷ fs) =
      let some_well : ltb 0 (suc well) ≡ true = ground arith in
      let positive = ap (λ b. if b then partial else failed) some_well in
      inr (inl (positive, omega arith, omega arith))

  -- A synchronisation returns whatever the providers do: each symbol counts once, as gone well or
  -- failed, the status follows from the counts, nothing is left uncommitted, and the stored bars
  -- of a symbol that was not asked for stay as they were.
  pub sync_daily_bars_accounts :
      (id : ℕ) (symbols : List Text) (start until : ℕ) (incremental : Bool) (s : Transaction (Db F))
      → let (r, t) = sync_daily_bars providers now id symbols start until incremental s in
        (r.well + r.failed ≡ length symbols)
        × Says r
        × (t.current ≡ t.committed)
        × ((symbol : Text) (date : ℕ)
            → is_in symbol symbols ≡ false
            → get_bar symbol date t.committed ≡ get_bar symbol date s.current)
  unfolding sync_daily_bars start_sync_run finish_sync_run get_bar Counted
  sync_daily_bars_accounts id symbols start until incremental s =
      let asked = bars_asked (length symbols) start until ∷ [] in
      let opened = commit (write (start_sync_run id now (codes "daily_bars") asked) s) in
      let start_tally = no_tally providers now in
      let tally =
        (sync_each providers now incremental start until symbols (opened, start_tally)).1 in
      let counts =
        sync_each-Counted incremental start until symbols 0 (opened, start_tally) (refl, refl) in
      (
        omega (arith, counts.0),
        status_of-Says tally.well tally.rows tally.failures,
        refl,
        λ symbol date h.
            (sync_each-Kept providers now symbol date (get_bar symbol date s.current) incremental
              start until symbols (opened, start_tally) h (refl, refl)).0,
      )
