-- ===== src/Tracker/Grown.antt =====
-- An import only adds to the tables (signal_tracker/service.py).
use signal_lab.Common.{
  ℕ, ◌+◌, ◌≡◌, refl, ◌∙◌, true, ◌&&◌, inl, inr, Bool-cases, arith, any, any-append, Option, none,
  some, List, [], ◌∷◌, map, Result, ok, err, Exec, ◌>>=◌, pure, commit, write,
}
use signal_lab.Common.Float.{Floats}
use signal_lab.Common.Text.{Text}
use signal_lab.Tracker.Models.{Recommendation, ExtractedRec, WindowPerf}
use signal_lab.Tracker.Repo.{
  Db, Draft, new_rec, insert_recommendation, is_duplicate, find_duplicate, get_recommendation,
  update_rec, upsert_one, upsert_performance,
}
use signal_lab.Tracker.Resolve.{NameIndex, resolve_name}
use signal_lab.Tracker.EventStudy.{
  Bar, Baseline, anchor_baseline, compute_windows, day_of, trading_days_ahead,
}
use signal_lab.Tracker.Service.{
  Session, Error, BarsReader, ChatMessage, Counts, fetch, set_baseline, save_baseline, refresh_from,
  refresh_with, refresh_symbol, refresh_found, refresh_recommendation, is_active, is_explicit,
  asked_time, draft_of, counted, store_item, import_item, import_items, import_all, benchmark,
}
use signal_lab.Tracker.Tables.{IsEdit, on_id, on_id-IsEdit}
use signal_lab.Tracker.Kept.{set_baseline-IsEdit}

module _ {F : Type 0} where
  -- The sources and the zone are the same, and every duplicate is found still.
  pub record Grows (a b : Db F) : Type 0 where
    pub sources : b.sources ≡ a.sources
    pub lag : b.lag ≡ a.lag
    pub kept :
        (src : ℕ) (time : Option ℕ) (raw : Text)
        → find_duplicate src time raw a.recs ≡ true
        → find_duplicate src time raw b.recs ≡ true

  Grows-refl : (a : Db F) → Grows a a
  Grows-refl a = record { sources = refl; lag = refl; kept = λ src time raw h. h }

  pub Grows-trans : (a b c : Db F) → Grows a b → Grows b c → Grows a c
  Grows-trans a b c h k = record {
    sources = k.sources ∙ h.sources;
    lag = k.lag ∙ h.lag;
    kept = λ src time raw d. k.kept src time raw (h.kept src time raw d);
  }

  is_duplicate-edited :
      (f : Recommendation F → Recommendation F)
      → IsEdit f
      → (src : ℕ) (time : Option ℕ) (raw : Text) (r : Recommendation F)
      → is_duplicate src time raw (f r) ≡ is_duplicate src time raw r
  is_duplicate-edited f e src none raw r = ground (arith, e.source_id r, e.raw_text r)
  is_duplicate-edited f e src (some t) raw r =
      ground (arith, e.source_id r, e.raw_text r, e.message_time r)

  any-edited :
      (f : Recommendation F → Recommendation F)
      → IsEdit f
      → (src : ℕ) (time : Option ℕ) (raw : Text) (recs : List (Recommendation F))
      → any (is_duplicate src time raw) (map f recs) ≡ any (is_duplicate src time raw) recs
  unfolding any
  any-edited f e src time raw [] = refl
  any-edited f e src time raw (r ∷ recs) =
      ground (arith, is_duplicate-edited f e src time raw r, any-edited f e src time raw recs)

  update_rec-Grows :
      (id : ℕ) (f : Recommendation F → Recommendation F) (db : Db F)
      → IsEdit f
      → Grows db (record db { recs = update_rec id f db.recs })
  unfolding update_rec find_duplicate
  update_rec-Grows id f db edit = record {
    sources = refl;
    lag = refl;
    kept =
        λ src time raw h. any-edited (on_id id f) (on_id-IsEdit id f edit) src time raw db.recs ∙ h;
  }

  upsert_performance-Grows :
      (now rec_id : ℕ) (rows : List (WindowPerf F)) (db : Db F)
      → Grows db (upsert_performance now rec_id rows db)
  unfolding upsert_performance
  upsert_performance-Grows now rec_id [] db = Grows-refl db
  upsert_performance-Grows now rec_id (p ∷ rows) db =
      let db' : Db F = record db {
        perfs = upsert_one db.fresh now rec_id p db.perfs;
        fresh = db.fresh + 1;
      } in
      let rest = upsert_performance-Grows now rec_id rows db' in
      record { sources = rest.sources; lag = rest.lag; kept = rest.kept }

  insert_recommendation-Grows :
      (now : ℕ) (d : Draft F) (db : Db F) → Grows db (insert_recommendation now d db)
  unfolding insert_recommendation find_duplicate
  insert_recommendation-Grows now d db = record {
    sources = refl;
    lag = refl;
    kept = λ src time raw h.
        ground
          (arith, any-append (is_duplicate src time raw) db.recs (new_rec db.fresh now d ∷ []), h);
  }

  -- What a method only adds to.
  abbrev pub Grown : {A : Type 0} → Exec (Session F) Error A → Type 0
  Grown m = (s : Session F) → Grows s.current (m s).1.current

  pub Grown-result :
      {A B : Type 0} (r : Result Error A) (k : A → Exec (Session F) Error B) (s : Session F)
      → ((a : A) → Grown (k a))
      → Grows s.current (((λ t. (r, t)) >>= k) s).1.current
  Grown-result (ok a) k s hk = hk a s
  Grown-result (err e) k s hk = Grows-refl s.current

  pub Grown-bind :
      {A B : Type 0} (m : Exec (Session F) Error A) (k : A → Exec (Session F) Error B)
      → Grown m
      → ((a : A) → Grown (k a))
      → Grown (m >>= k)
  Grown-bind m k hm hk s =
      Grows-trans s.current (m s).1.current ((m >>= k) s).1.current (hm s)
        (Grown-result (m s).0 k (m s).1 hk)

  Grown-fetch : (r : Result Text (List (Bar F))) → Grown (fetch r)
  Grown-fetch (ok bars) s = Grows-refl s.current
  Grown-fetch (err e) s = Grows-refl s.current

module _ {F : Type 0} ⦃fl : Floats F⦄ (reader : BarsReader F) (now : ℕ) where
  refresh_from-Grown :
      (rec : Recommendation F) (until : ℕ) (bars : List (Bar F)) (b : Option (Baseline F))
      → Grown (refresh_from reader now rec until bars b)
  unfolding refresh_from
  refresh_from-Grown rec until bars none s = Grows-refl s.current
  refresh_from-Grown rec until bars (some b) s =
      let bench = fetch (reader.get_qfq_bars benchmark b.date until) in
      let perfs =
        λ (bench : List (Bar F)). compute_windows bars b bench rec.target_price rec.stop_loss in
      Grows-trans s.current (save_baseline rec.id b s.current)
        (refresh_from reader now rec until bars (some b) s).1.current
        (update_rec-Grows rec.id (set_baseline b) s.current (set_baseline-IsEdit b))
        (Grown-bind bench
          (λ bench s. (ok tt, commit (write (upsert_performance now rec.id (perfs bench)) s)))
          (Grown-fetch (reader.get_qfq_bars benchmark b.date until))
          (λ bench s. upsert_performance-Grows now rec.id (perfs bench) s.current)
          (write (save_baseline rec.id b) s))

  refresh_with-Grown :
      (rec : Recommendation F) (until : ℕ) (bars : List (Bar F))
      → Grown (refresh_with reader now rec until bars)
  unfolding refresh_with
  refresh_with-Grown rec until [] s = Grows-refl s.current
  refresh_with-Grown rec until (bar ∷ bars) s =
      refresh_from-Grown rec until (bar ∷ bars) (anchor_baseline rec.message_time (bar ∷ bars)) s

  refresh_symbol-Grown :
      (rec : Recommendation F) (symbol : Option Text) → Grown (refresh_symbol reader now rec symbol)
  refresh_symbol-Grown rec none s = Grows-refl s.current
  refresh_symbol-Grown rec (some []) s = Grows-refl s.current
  refresh_symbol-Grown rec (some (c ∷ symbol)) s =
      let start = day_of rec.message_time in
      let until = trading_days_ahead start 60 in
      let bars = reader.get_qfq_bars (c ∷ symbol) start until in
      Grown-bind (fetch bars) (refresh_with reader now rec until) (Grown-fetch bars)
        (refresh_with-Grown rec until) s

  refresh_found-Grown : (rec : Option (Recommendation F)) → Grown (refresh_found reader now rec)
  refresh_found-Grown none s = Grows-refl s.current
  refresh_found-Grown (some rec) s = refresh_symbol-Grown rec rec.symbol s

  refresh_recommendation-Grown : (id : ℕ) → Grown (refresh_recommendation reader now id)
  unfolding refresh_recommendation
  refresh_recommendation-Grown id s = refresh_found-Grown (get_recommendation id s.current.recs) s

  -- The row of the draft is there, whether or not its refresh raises.
  pub store_item-Grown :
      (d : Draft F) (c : Counts) (s : Session F)
      → Grows (insert_recommendation now d s.current) (store_item reader now d c s).1.current
  unfolding store_item
  store_item-Grown d c s =
      let s' = write (insert_recommendation now d) s in
      elim (Bool-cases (is_active d.status && is_explicit d.item.confidence)) [
        | inl yes₁ ↦ rw yes₁ (
            Grown-bind (refresh_recommendation reader now s.current.fresh) (λ _. pure (counted d c))
              (refresh_recommendation-Grown s.current.fresh) (λ _ s. Grows-refl s.current) s')
        | inr no₁ ↦ rw no₁ (Grows-refl s'.current)
      ]

  pub import_item-Grown :
      (src : ℕ) (index : NameIndex) (msg : ChatMessage) (item : ExtractedRec F) (c : Counts)
      → Grown (import_item reader now src index msg item c)
  unfolding import_item
  import_item-Grown src index msg item c s =
      let d = draft_of s.current.lag src now msg item (resolve_name item.symbol_name index) in
      elim (Bool-cases (
        find_duplicate src (asked_time s.current.lag msg.message_time) msg.raw_block
          s.current.recs)) [
            | inl old ↦ rw old (Grows-refl s.current)
            | inr new ↦ rw new (
                Grows-trans s.current (insert_recommendation now d s.current)
                  (store_item reader now d c s).1.current
                  (insert_recommendation-Grows now d s.current) (store_item-Grown d c s))
          ]

  pub import_items-Grown :
      (src : ℕ) (index : NameIndex) (msg : ChatMessage) (items : List (ExtractedRec F)) (c : Counts)
      → Grown (import_items reader now src index msg items c)
  unfolding import_items
  import_items-Grown src index msg [] c s = Grows-refl s.current
  import_items-Grown src index msg (item ∷ items) c s =
      Grown-bind (import_item reader now src index msg item c)
        (import_items reader now src index msg items) (import_item-Grown src index msg item c)
        (import_items-Grown src index msg items) s

  pub import_all-Grown :
      (src : ℕ) (index : NameIndex) (items : List (ChatMessage × List (ExtractedRec F)))
      (c : Counts)
      → Grown (import_all reader now src index items c)
  unfolding import_all
  import_all-Grown src index [] c s = Grows-refl s.current
  import_all-Grown src index ((msg, items) ∷ rest) c s =
      Grown-bind (import_items reader now src index msg items c)
        (import_all reader now src index rest) (import_items-Grown src index msg items c)
        (import_all-Grown src index rest) s
