-- ===== src/Tracker/Kept/Refreshed.antt =====
-- A performance that is computed again keeps the tables sound (signal_tracker/service.py).
use signal_lab.Common.{
  ℕ, ◌+◌, refl, inl, inr, Bool-cases, Option, none, some, List, [], ◌∷◌, Result, ok, err, commit,
  write, Both, Keeps, Keeps-bind,
}
use signal_lab.Common.Float.{Floats}
use signal_lab.Common.Text.{Text}
use signal_lab.Tracker.Models.{Recommendation, active}
use signal_lab.Tracker.Repo.{
  get_recommendation, list_recommendations, update_rec, upsert_performance,
}
use signal_lab.Tracker.EventStudy.{
  Bar, Baseline, anchor_baseline, compute_windows, day_of, trading_days_ahead,
}
use signal_lab.Tracker.Service.{
  BarsReader, fetch, set_baseline, save_baseline, refresh_from, refresh_with, refresh_symbol,
  refresh_found, refresh_recommendation, is_explicit, activate, resolve_found, resolve_pending,
  refresh_each, refresh_all_active, benchmark,
}
use signal_lab.Tracker.Tables.{IsSound, IsEdit, update_rec-IsSound, upsert_performance-IsSound}

module _ {F : Type 0} where
  Keeps-fetch : (r : Result Text (List (Bar F))) → Keeps (Both IsSound) (fetch r)
  Keeps-fetch (ok bars) s h = h
  Keeps-fetch (err e) s h = h

  pub set_baseline-IsEdit : (b : Baseline F) → IsEdit (set_baseline b)
  set_baseline-IsEdit b = record {
    id = λ r. refl;
    source_id = λ r. refl;
    message_time = λ r. refl;
    raw_text = λ r. refl;
    symbol = λ r h. h;
  }

  activate-IsEdit : (symbol : Text) → IsEdit {F = F} (activate symbol)
  activate-IsEdit symbol = record {
    id = λ r. refl;
    source_id = λ r. refl;
    message_time = λ r. refl;
    raw_text = λ r. refl;
    symbol = λ r h. refl;
  }

module _ {F : Type 0} ⦃fl : Floats F⦄ (reader : BarsReader F) (now : ℕ) where
  refresh_from-Keeps :
      (rec : Recommendation F) (until : ℕ) (bars : List (Bar F)) (b : Option (Baseline F))
      → Keeps (Both IsSound) (refresh_from reader now rec until bars b)
  unfolding refresh_from
  refresh_from-Keeps rec until bars none s h = h
  refresh_from-Keeps rec until bars (some b) s h =
      Keeps-bind (Both IsSound) (fetch (reader.get_qfq_bars benchmark b.date until))
        (λ bench s. (
          ok tt,
          commit (
              write
                (upsert_performance now rec.id
                  (compute_windows bars b bench rec.target_price rec.stop_loss))
                s),
        ))
        (Keeps-fetch (reader.get_qfq_bars benchmark b.date until))
        (λ bench s h.
          let done =
            upsert_performance-IsSound now rec.id
              (compute_windows bars b bench rec.target_price rec.stop_loss) s.current h.0 in
          (done, done))
        (write (save_baseline rec.id b) s)
        (update_rec-IsSound rec.id (set_baseline b) s.current (set_baseline-IsEdit b) h.0, h.1)

  refresh_with-Keeps :
      (rec : Recommendation F) (until : ℕ) (bars : List (Bar F))
      → Keeps (Both IsSound) (refresh_with reader now rec until bars)
  unfolding refresh_with
  refresh_with-Keeps rec until [] s h = h
  refresh_with-Keeps rec until (bar ∷ bars) s h =
      refresh_from-Keeps rec until (bar ∷ bars) (anchor_baseline rec.message_time (bar ∷ bars)) s h

  refresh_symbol-Keeps :
      (rec : Recommendation F) (symbol : Option Text)
      → Keeps (Both IsSound) (refresh_symbol reader now rec symbol)
  refresh_symbol-Keeps rec none s h = h
  refresh_symbol-Keeps rec (some []) s h = h
  refresh_symbol-Keeps rec (some (c ∷ symbol)) s h =
      let start = day_of rec.message_time in
      let until = trading_days_ahead start 60 in
      let bars = reader.get_qfq_bars (c ∷ symbol) start until in
      Keeps-bind (Both IsSound) (fetch bars) (refresh_with reader now rec until) (Keeps-fetch bars)
        (refresh_with-Keeps rec until) s h

  refresh_found-Keeps :
      (rec : Option (Recommendation F)) → Keeps (Both IsSound) (refresh_found reader now rec)
  refresh_found-Keeps none s h = h
  refresh_found-Keeps (some rec) s h = refresh_symbol-Keeps rec rec.symbol s h

  pub refresh_recommendation-Keeps :
      (id : ℕ) → Keeps (Both IsSound) (refresh_recommendation reader now id)
  unfolding refresh_recommendation
  refresh_recommendation-Keeps id s h =
      refresh_found-Keeps (get_recommendation id s.current.recs) s h

  resolve_found-Keeps :
      (id : ℕ) (symbol : Text) (rec : Option (Recommendation F))
      → Keeps (Both IsSound) (resolve_found reader now id symbol rec)
  resolve_found-Keeps id symbol none s h = h
  resolve_found-Keeps id symbol (some rec) s h =
      let done = update_rec-IsSound id (activate symbol) s.current (activate-IsEdit symbol) h.0 in
      refresh_recommendation-Keeps id
        (commit (write (λ db. record db { recs = update_rec id (activate symbol) db.recs }) s))
        (done, done)

  pub resolve_pending-Keeps :
      (id : ℕ) (symbol : Text) → Keeps (Both IsSound) (resolve_pending reader now id symbol)
  unfolding resolve_pending
  resolve_pending-Keeps id symbol s h =
      resolve_found-Keeps id symbol (get_recommendation id s.current.recs) s h

  refresh_each-Keeps :
      (recs : List (Recommendation F)) (n : ℕ)
      → Keeps (Both IsSound) (refresh_each reader now recs n)
  unfolding refresh_each
  refresh_each-Keeps [] n s h = h
  refresh_each-Keeps (rec ∷ recs) n s h = elim (Bool-cases (is_explicit rec.confidence)) [
    | inl yes₁ ↦ rw yes₁ (
        Keeps-bind (Both IsSound) (refresh_recommendation reader now rec.id)
          (λ _. refresh_each reader now recs (n + 1)) (refresh_recommendation-Keeps rec.id)
          (λ _. refresh_each-Keeps recs (n + 1)) s h)
    | inr no₁ ↦ rw no₁ (refresh_each-Keeps recs n s h)
  ]

  pub refresh_all_active-Keeps : Keeps (Both IsSound) (refresh_all_active reader now)
  unfolding refresh_all_active
  refresh_all_active-Keeps s h =
      refresh_each-Keeps (list_recommendations none (some active) 10000 s.current.recs) 0 s h
