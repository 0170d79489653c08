-- ===== src/Tracker/Again.antt =====
-- An import that is made again stores nothing (signal_tracker/service.py).
use signal_lab.Common.{
  ℕ, ◌+◌, ◌≡◌, refl, sym, ap, ◌∙◌, true, inl, inr, Bool-cases, Option-cases, arith, any, any-append,
  Option, none, some, List, [], ◌∷◌, ◌++◌, length, All, ok, bind-ok, bind_inversion, commit,
}
use mathlib.Core.Path.{subst}
use signal_lab.Common.Float.{Floats}
use signal_lab.Common.Text.{Text, text_eq, text_eq_refl}
use signal_lab.Tracker.Models.{Source, Recommendation, ExtractedRec}
use signal_lab.Tracker.Repo.{
  Db, Draft, new_rec, source_named, new_source, get_or_create_source, insert_recommendation,
  is_duplicate, find_duplicate,
}
use signal_lab.Tracker.Resolve.{NameIndex, resolve_name}
use signal_lab.Tracker.Service.{
  Session, BarsReader, Stamp, ChatMessage, Counts, draft_of, import_item, import_items, import_all,
  alias_index, no_counts, import_messages, asked_time,
}
use signal_lab.Tracker.Tables.{time_or}
use signal_lab.Tracker.Kept.{or_now-asked_time}
use signal_lab.Tracker.Grown.{
  Grows, Grown-result, store_item-Grown, import_items-Grown, import_all-Grown,
}

abbrev pub Extracted : Type 0 → Type 0
Extracted F = ChatMessage × List (ExtractedRec F)

-- How many items there are.
abbrev pub total : {F : Type 0} → List (Extracted F) → ℕ
total [] = 0
total ((msg, items) ∷ rest) = length items + total rest

source_named-append :
    (name : Text) (src : Source) (sources : List Source)
    → source_named name sources ≡ none
    → src.name ≡ name
    → source_named name (sources ++ src ∷ []) ≡ some src
unfolding source_named
source_named-append name src [] h e = rw e (rw (text_eq_refl name) refl)
source_named-append name src (other ∷ sources) h e = elim (Bool-cases (text_eq other.name name)) [
  | inl same ↦ absurd (ground (arith, h, same))
  | inr differs ↦ rw differs (source_named-append name src sources (ground (arith, h, differs)) e)
]

module _ {F : Type 0} where
  -- A message that something was extracted from has its row.
  abbrev Known : ℕ → List (Recommendation F) → Extracted F → Type 0
  Known src recs (msg, []) = Unit
  Known src recs (msg, item ∷ items) =
      find_duplicate src (asked_time 0 msg.message_time) msg.raw_block recs ≡ true

  Known-any :
      (src : ℕ) (recs : List (Recommendation F)) (msg : ChatMessage) (items : List (ExtractedRec F))
      → find_duplicate src (asked_time 0 msg.message_time) msg.raw_block recs ≡ true
      → Known src recs (msg, items)
  Known-any src recs msg [] h = tt
  Known-any src recs msg (item ∷ items) h = h

  Known-Grows :
      (src : ℕ) (a b : Db F)
      → Grows a b
      → (m : Extracted F) → Known src a.recs m
      → Known src b.recs m
  Known-Grows src a b g (msg, []) h = tt
  Known-Grows src a b g (msg, item ∷ items) h =
      g.kept src (asked_time 0 msg.message_time) msg.raw_block h

  source_named-get_or_create_source :
      (name channel : Text) (now : ℕ) (db : Db F)
      → let r = get_or_create_source name channel now db in source_named name r.1.sources ≡ some r.0
  unfolding get_or_create_source
  source_named-get_or_create_source name channel now db =
      elim (Option-cases (source_named name db.sources)) [
        | inl new ↦
            rw new
              (source_named-append name (new_source db.fresh now name channel) db.sources new refl)
        | inr (src, found) ↦ rw found found
      ]

  lag-get_or_create_source :
      (name channel : Text) (now : ℕ) (db : Db F)
      → (get_or_create_source name channel now db).1.lag ≡ db.lag
  unfolding get_or_create_source
  lag-get_or_create_source name channel now db =
      elim (Option-cases (source_named name db.sources)) [
        | inl new ↦ rw new refl
        | inr (src, found) ↦ rw found refl
      ]

  inserted-Known :
      (now : ℕ) (time : Option ℕ) (d : Draft F) (db : Db F)
      → d.message_time ≡ time_or now time
      → find_duplicate d.source_id time d.raw_text (insert_recommendation now d db).recs ≡ true
  unfolding insert_recommendation find_duplicate any
  inserted-Known now none d db e = ground (
    arith,
    any-append (is_duplicate d.source_id none d.raw_text) db.recs (new_rec db.fresh now d ∷ []),
    text_eq_refl d.raw_text,
  )
  inserted-Known now (some t) d db e = ground (
    arith,
    e,
    any-append (is_duplicate d.source_id (some t) d.raw_text) db.recs (new_rec db.fresh now d ∷ []),
    text_eq_refl d.raw_text,
  )

module _ {F : Type 0} ⦃fl : Floats F⦄ (reader : BarsReader F) (now : ℕ) (src : ℕ)
    (index : NameIndex) where
  -- What is looked for in the zone of the market.
  at_lag :
      (m : Option Stamp) (raw : Text) (s : Session F)
      → s.current.lag ≡ 0
      → find_duplicate src (asked_time s.current.lag m) raw s.current.recs
        ≡ find_duplicate src (asked_time 0 m) raw s.current.recs
  at_lag m raw s zone = ap (λ l. find_duplicate src (asked_time l m) raw s.current.recs) zone

  import_item-Known :
      (msg : ChatMessage) (item : ExtractedRec F) (c : Counts) (s : Session F)
      → s.current.lag ≡ 0
      → find_duplicate src
          (asked_time 0 msg.message_time)
          msg.raw_block
          (import_item reader now src index msg item c s).1.current.recs
        ≡ true
  unfolding import_item
  import_item-Known msg item c s zone =
      let m = msg.message_time in
      let lag = s.current.lag in
      let d = draft_of lag src now msg item (resolve_name item.symbol_name index) in
      let same = at_lag m msg.raw_block s zone in
      elim (Bool-cases (find_duplicate src (asked_time lag m) msg.raw_block s.current.recs)) [
        | inl old ↦ rw old (sym same ∙ old)
        | inr new ↦ rw new (
            (store_item-Grown reader now d c s).kept src (asked_time 0 m) msg.raw_block (
              inserted-Known now (asked_time 0 m) d s.current
                (or_now-asked_time lag now m zone ∙ ap (λ l. time_or now (asked_time l m)) zone)))
      ]

  import_items-Known :
      (msg : ChatMessage) (items : List (ExtractedRec F)) (c : Counts) (s : Session F)
      → s.current.lag ≡ 0
      → Known src (import_items reader now src index msg items c s).1.current.recs (msg, items)
  unfolding import_items
  import_items-Known msg [] c s zone = tt
  import_items-Known msg (item ∷ items) c s zone =
      let first = import_item reader now src index msg item c s in
      (Grown-result first.0 (import_items reader now src index msg items) first.1
          (import_items-Grown reader now src index msg items)).kept
        src (asked_time 0 msg.message_time) msg.raw_block (import_item-Known msg item c s zone)

  import_all-Known :
      (items : List (Extracted F)) (c c' : Counts) (s : Session F)
      → s.current.lag ≡ 0
      → (import_all reader now src index items c s).0 ≡ ok c'
      → All (Known src (import_all reader now src index items c s).1.current.recs) items
  unfolding import_all
  import_all-Known [] c c' s zone h = tt
  import_all-Known ((msg, items) ∷ rest) c c' s zone h =
      let first = import_items reader now src index msg items c in
      let (c₁, done, next) = bind_inversion first (import_all reader now src index rest) s c' h in
      let t = (first s).1 in
      let after = (import_all reader now src index rest c₁ t).1 in
      subst (λ p. All (Known src p.1.current.recs) ((msg, items) ∷ rest)) (sym next)
        (
          Known-Grows src t.current after.current (import_all-Grown reader now src index rest c₁ t)
              (msg, items) (import_items-Known msg items c s zone),
          import_all-Known rest c₁ c' t
              ((import_items-Grown reader now src index msg items c s).lag ∙ zone)
              (ap (λ p. p.0) (sym next) ∙ h),
        )

  -- Items of messages that are known are skipped.
  import_items_skips :
      (msg : ChatMessage) (items : List (ExtractedRec F)) (c : Counts) (s : Session F)
      → s.current.lag ≡ 0
      → Known src s.current.recs (msg, items)
      → import_items reader now src index msg items c s
        ≡ (ok (record c { skipped = c.skipped + length items }), s)
  unfolding import_items
  import_items_skips msg [] c s zone h = ground arith
  import_items_skips msg (item ∷ items) c s zone h =
      let c₁ = record c { skipped = c.skipped + 1 } in
      bind-ok (import_item reader now src index msg item c)
        (import_items reader now src index msg items) s c₁ s
        (rw (at_lag msg.message_time msg.raw_block s zone ∙ h, import_item) refl)
      ∙ import_items_skips msg items c₁ s zone (Known-any src s.current.recs msg items h)
      ∙ ground arith

  import_all_skips :
      (items : List (Extracted F)) (c : Counts) (s : Session F)
      → s.current.lag ≡ 0
      → All (Known src s.current.recs) items
      → import_all reader now src index items c s
        ≡ (ok (record c { skipped = c.skipped + total items }), s)
  unfolding import_all
  import_all_skips [] c s zone h = ground arith
  import_all_skips ((msg, items) ∷ rest) c s zone h =
      let c₁ = record c { skipped = c.skipped + length items } in
      bind-ok (import_items reader now src index msg items c) (import_all reader now src index rest)
        s c₁ s (import_items_skips msg items c s zone h.0)
      ∙ import_all_skips rest c₁ s zone h.1
      ∙ ground arith

skips_at :
    {F : Type 0} ⦃fl : Floats F⦄ (reader : BarsReader F) (now : ℕ) (name channel : Text)
    (items : List (Extracted F)) (src : Source) (t : Session F)
    → t.current.lag ≡ 0
    → source_named name t.current.sources ≡ some src
    → All (Known src.id t.current.recs) items
    → import_messages reader now name channel items (commit t)
      ≡ (ok (record { created = 0; skipped = total items; waiting = 0 }), commit t)
unfolding import_messages get_or_create_source
skips_at reader now name channel items src t zone found known = rw found (
    bind-ok (import_all reader now src.id (alias_index reader) items no_counts)
      (λ c u. (ok c, commit u)) (commit t) (record no_counts { skipped = total items }) (commit t)
      (import_all_skips reader now src.id (alias_index reader) items no_counts (commit t) zone known
        ∙ ground arith))

-- Where the session of the database is in the zone of the market: an import that went through can be
-- made again, with the same extractions and at any later time, and every item is skipped, none is
-- stored, and the tables stay as they are.
pub import_again :
    {F : Type 0} ⦃fl : Floats F⦄ (reader reader' : BarsReader F) (now now' : ℕ)
    (name channel channel' : Text) (items : List (Extracted F)) (c : Counts) (s : Session F)
    → s.current.lag ≡ 0
    → (import_messages reader now name channel items s).0 ≡ ok c
    → let s' = (import_messages reader now name channel items s).1 in
      import_messages reader' now' name channel' items s'
      ≡ (ok (record { created = 0; skipped = total items; waiting = 0 }), s')
unfolding import_messages
import_again reader reader' now now' name channel channel' items c s zone h =
    let (src, db) = get_or_create_source name channel now s.current in
    let start = record s { current = db } in
    let all = import_all reader now src.id (alias_index reader) items no_counts in
    let (c₁, done, next) = bind_inversion all (λ c t. (ok c, commit t)) start c h in
    let t = (all start).1 in
    let start_zone = lag-get_or_create_source name channel now s.current ∙ zone in
    let all_grown = import_all-Grown reader now src.id (alias_index reader) items no_counts start in
    subst
      (λ p.
        import_messages reader' now' name channel' items p.1
        ≡ (ok (record { created = 0; skipped = total items; waiting = 0 }), p.1))
      (sym next)
      (skips_at reader' now' name channel' items src t (all_grown.lag ∙ start_zone)
        (ap (source_named name) all_grown.sources
          ∙ source_named-get_or_create_source name channel now s.current)
        (import_all-Known reader now src.id (alias_index reader) items no_counts c₁ start start_zone
          done))
