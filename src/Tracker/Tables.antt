-- ===== src/Tracker/Tables.antt =====
-- What the tables of packages/tracker look like, and what each write keeps (repo.py).
mod Stored
use signal_lab.Common.{
  ℕ, ◌+◌, ◌<◌, ◌==◌, ◌≡◌, ◌≢◌, refl, sym, ap, ◌∙◌, inl, inr, true, false, Bool-cases, Option-cases,
  arith, Option, none, some, is_some, List, [], ◌∷◌, any, All, All-map, All-append_one, Pairwise,
  Pairwise-append_one, Pairwise-map_to, All-map_to, if◌then◌else◌,
}
use signal_lab.Common.Text.{Text, text_eq}
use signal_lab.Common.TextSet.{text_eq_sym}
use signal_lab.Tracker.Models.{Source, Recommendation, RecPerformance, WindowPerf, Status, active}
use signal_lab.Tracker.Repo.{
  Db, Draft, source_named, new_source, get_or_create_source, new_rec, insert_recommendation,
  is_duplicate, find_duplicate, update_rec, is_window, upsert_one, upsert_performance,
}
pub use Stored.*

module _ {F : Type 0} where
  -- A change of one row that leaves what finds it.
  pub record IsEdit (f : Recommendation F → Recommendation F) : Type 0 where
    pub id : (r : Recommendation F) → (f r).id ≡ r.id
    pub source_id : (r : Recommendation F) → (f r).source_id ≡ r.source_id
    pub message_time : (r : Recommendation F) → (f r).message_time ≡ r.message_time
    pub raw_text : (r : Recommendation F) → (f r).raw_text ≡ r.raw_text
    pub symbol :
        (r : Recommendation F) → HasSymbol r.status r.symbol → HasSymbol (f r).status (f r).symbol

  abbrev pub on_id : ℕ → (Recommendation F → Recommendation F) → Recommendation F → Recommendation F
  on_id id f r = if r.id == id then f r else r

  pub on_id-IsEdit :
      (id : ℕ) (f : Recommendation F → Recommendation F) → IsEdit f → IsEdit (on_id id f)
  on_id-IsEdit id f e = record {
    id = λ r. ground (arith, e.id r);
    source_id = λ r. ground (arith, e.source_id r);
    message_time = λ r. ground (arith, e.message_time r);
    raw_text = λ r. elim (Bool-cases (r.id == id)) [
      | inl here ↦ rw here (e.raw_text r)
      | inr there ↦ rw there refl
    ];
    symbol = λ r h. elim (Bool-cases (r.id == id)) [
      | inl here ↦ rw here (e.symbol r h)
      | inr there ↦ rw there h
    ];
  }

  Unlike-edited :
      (f : Recommendation F → Recommendation F)
      → IsEdit f
      → (x y : Recommendation F) → Unlike x y
      → Unlike (f x) (f y)
  Unlike-edited f e x y h = ground (
    arith,
    h,
    e.source_id x,
    e.source_id y,
    e.message_time x,
    e.message_time y,
    e.raw_text x,
    e.raw_text y,
  )

  pub update_rec-IsSound :
      (id : ℕ) (f : Recommendation F → Recommendation F) (db : Db F)
      → IsEdit f
      → IsSound db
      → IsSound (record db { recs = update_rec id f db.recs })
  unfolding update_rec
  update_rec-IsSound id f db edit h =
      let e = on_id-IsEdit id f edit in
      record {
        old_ids =
            All-map_to (on_id id f) (λ r. r.id < db.fresh) (λ r. r.id < db.fresh)
              (λ r k. omega (arith, e.id r, k)) db.recs h.old_ids;
        ids =
            Pairwise-map_to (on_id id f) OtherId OtherId
              (λ x y k same. k (sym (e.id x) ∙ same ∙ e.id y)) db.recs h.ids;
        unlike =
            Pairwise-map_to (on_id id f) Unlike Unlike (Unlike-edited (on_id id f) e) db.recs
              h.unlike;
        named =
            All-map_to (on_id id f) (λ r. HasSymbol r.status r.symbol)
              (λ r. HasSymbol r.status r.symbol) e.symbol db.recs h.named;
        sources = h.sources;
        windows = h.windows;
        at_zone = h.at_zone;
      }

  OtherWindow-upsert_one :
      (id now rec_id : ℕ) (p : WindowPerf F) (q : RecPerformance F)
      (perfs : List (RecPerformance F))
      → is_window rec_id p.window_days q ≡ false
      → All (OtherWindow q) perfs
      → All (OtherWindow q) (upsert_one id now rec_id p perfs)
  unfolding upsert_one
  OtherWindow-upsert_one id now rec_id p q [] new h = (ground (arith, new), tt)
  OtherWindow-upsert_one id now rec_id p q (r ∷ perfs) new h =
      elim (Bool-cases (is_window rec_id p.window_days r)) [
        | inl here ↦ rw here (ground (arith, new), h.1)
        | inr there ↦ rw there (h.0, OtherWindow-upsert_one id now rec_id p q perfs new h.1)
      ]

  upsert_one-Pairwise :
      (id now rec_id : ℕ) (p : WindowPerf F) (perfs : List (RecPerformance F))
      → Pairwise OtherWindow perfs
      → Pairwise OtherWindow (upsert_one id now rec_id p perfs)
  unfolding upsert_one
  upsert_one-Pairwise id now rec_id p [] h = (tt, tt)
  upsert_one-Pairwise id now rec_id p (q ∷ perfs) h =
      elim (Bool-cases (is_window rec_id p.window_days q)) [
        | inl here ↦ rw here (
          All-map
              {Q = λ (r : RecPerformance F).
                OtherWindow (record q { perf = p; updated_at = now }) r}
              perfs (λ r k. ground (arith, k, here)) h.0,
          h.1,
        )
        | inr there ↦ rw there (
          OtherWindow-upsert_one id now rec_id p q perfs there h.0,
          upsert_one-Pairwise id now rec_id p perfs h.1,
        )
      ]

  pub upsert_performance-IsSound :
      (now rec_id : ℕ) (rows : List (WindowPerf F)) (db : Db F)
      → IsSound db
      → IsSound (upsert_performance now rec_id rows db)
  unfolding upsert_performance
  upsert_performance-IsSound now rec_id [] db h = h
  upsert_performance-IsSound now rec_id (p ∷ rows) db h =
      upsert_performance-IsSound now rec_id rows
        (record db { perfs = upsert_one db.fresh now rec_id p db.perfs; fresh = db.fresh + 1 })
        (record {
          old_ids = later_ids db.fresh db.recs h.old_ids;
          ids = h.ids;
          unlike = h.unlike;
          named = h.named;
          sources = h.sources;
          windows = upsert_one-Pairwise db.fresh now rec_id p db.perfs h.windows;
          at_zone = h.at_zone;
        })
