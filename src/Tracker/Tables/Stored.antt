-- ===== src/Tracker/Tables/Stored.antt =====
-- What makes the tables of the tracker sound, and that new rows keep it (signal_tracker/repo.py).
use signal_lab.Common.{
  ℕ, ◌+◌, ◌<◌, ◌≡◌, ◌≢◌, refl, ap, ◌∙◌, inl, inr, true, false, Bool-cases, Option-cases, arith,
  Option, none, some, is_some, List, [], ◌∷◌, any, All, All-map, All-append_one, Pairwise,
  Pairwise-append_one,
}
use signal_lab.Common.Text.{Text, text_eq}
use signal_lab.Common.TextSet.{text_eq_sym}
use signal_lab.Tracker.Models.{Source, Recommendation, RecPerformance, Status, active}
use signal_lab.Tracker.Repo.{
  Db, Draft, source_named, new_source, get_or_create_source, new_rec, insert_recommendation,
  is_duplicate, find_duplicate, is_window,
}

-- A recommendation that counts has its symbol.
abbrev pub HasSymbol : Status → Option Text → Type 0
HasSymbol active symbol = is_some symbol ≡ true
HasSymbol _ symbol = Unit

abbrev pub OtherName : Source → Source → Type 0
OtherName a b = text_eq a.name b.name ≡ false

OtherName-all :
    (name : Text) (src : Source) (sources : List Source)
    → src.name ≡ name
    → source_named name sources ≡ none
    → All (λ s. OtherName s src) sources
unfolding source_named
OtherName-all name src [] e h = tt
OtherName-all name src (s ∷ sources) e h = elim (Bool-cases (text_eq s.name name)) [
  | inl same ↦ absurd (ground (arith, h, same))
  | inr other ↦
      (ap (text_eq s.name) e ∙ other, OtherName-all name src sources e (ground (arith, h, other)))
]

-- A time, or else the clock.
abbrev pub time_or : ℕ → Option ℕ → ℕ
time_or now none = now
time_or now (some t) = t

module _ {F : Type 0} where
  -- Not of the same source, time and text.
  abbrev pub Unlike : Recommendation F → Recommendation F → Type 0
  Unlike r q = is_duplicate r.source_id (some r.message_time) r.raw_text q ≡ false

  abbrev pub OtherId : Recommendation F → Recommendation F → Type 0
  OtherId r q = r.id ≢ q.id

  abbrev pub OtherWindow : RecPerformance F → RecPerformance F → Type 0
  OtherWindow p q = is_window p.recommendation_id p.perf.window_days q ≡ false

  pub record IsSound (db : Db F) : Type 0 where
    pub old_ids : All (λ r. r.id < db.fresh) db.recs
    pub ids : Pairwise OtherId db.recs
    pub unlike : Pairwise Unlike db.recs
    pub named : All (λ r. HasSymbol r.status r.symbol) db.recs
    pub sources : Pairwise OtherName db.sources
    pub windows : Pairwise OtherWindow db.perfs
    -- The session is in the zone of the market.
    pub at_zone : db.lag ≡ 0

  pub later_ids :
      (n : ℕ) (recs : List (Recommendation F))
      → All (λ r. r.id < n) recs
      → All (λ r. r.id < n + 1) recs
  later_ids n recs h =
      All-map {Q = λ (r : Recommendation F). r.id < n + 1} recs (λ r k. omega (arith, k)) h

  pub get_or_create_source-IsSound :
      (name channel : Text) (now : ℕ) (db : Db F)
      → IsSound db
      → IsSound (get_or_create_source name channel now db).1
  unfolding get_or_create_source
  get_or_create_source-IsSound name channel now db h =
      elim (Option-cases (source_named name db.sources)) [
        | inl new ↦ rw new (record {
          old_ids = later_ids db.fresh db.recs h.old_ids;
          ids = h.ids;
          unlike = h.unlike;
          named = h.named;
          sources =
              Pairwise-append_one OtherName db.sources (new_source db.fresh now name channel)
                h.sources
                (OtherName-all name (new_source db.fresh now name channel) db.sources refl new);
          windows = h.windows;
          at_zone = h.at_zone;
        })
        | inr (src, found) ↦ rw found h
      ]

  Unlike-new :
      (id now : ℕ) (time : Option ℕ) (d : Draft F) (q : Recommendation F)
      → d.message_time ≡ time_or now time
      → is_duplicate d.source_id time d.raw_text q ≡ false
      → Unlike q (new_rec id now d)
  Unlike-new id now none d q e h = ground (arith, text_eq_sym q.raw_text d.raw_text)
  Unlike-new id now (some t) d q e h = ground (arith, text_eq_sym q.raw_text d.raw_text)

  Unlike-all :
      (id now : ℕ) (time : Option ℕ) (d : Draft F) (recs : List (Recommendation F))
      → d.message_time ≡ time_or now time
      → any (is_duplicate d.source_id time d.raw_text) recs ≡ false
      → All (λ q. Unlike q (new_rec id now d)) recs
  unfolding any
  Unlike-all id now time d [] e h = tt
  Unlike-all id now time d (q ∷ recs) e h = (
    Unlike-new id now time d q e (ground (arith, h)),
    Unlike-all id now time d recs e (ground (arith, h)),
  )

  pub insert_recommendation-IsSound :
      (now : ℕ) (time : Option ℕ) (d : Draft F) (db : Db F)
      → d.message_time ≡ time_or now time
      → find_duplicate d.source_id time d.raw_text db.recs ≡ false
      → HasSymbol d.status d.symbol
      → IsSound db
      → IsSound (insert_recommendation now d db)
  unfolding insert_recommendation find_duplicate
  insert_recommendation-IsSound now time d db e new symbol h = record {
    old_ids =
        All-append_one (λ r. r.id < db.fresh + 1) db.recs (new_rec db.fresh now d)
          (later_ids db.fresh db.recs h.old_ids) (omega arith);
    ids = Pairwise-append_one OtherId db.recs (new_rec db.fresh now d) h.ids (
        All-map {Q = λ (r : Recommendation F). r.id ≢ db.fresh} db.recs (λ r k. omega (arith, k))
          h.old_ids);
    unlike =
        Pairwise-append_one Unlike db.recs (new_rec db.fresh now d) h.unlike
          (Unlike-all db.fresh now time d db.recs e new);
    named =
        All-append_one (λ r. HasSymbol r.status r.symbol) db.recs (new_rec db.fresh now d) h.named
          symbol;
    sources = h.sources;
    windows = h.windows;
    at_zone = h.at_zone;
  }
