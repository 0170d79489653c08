-- ===== src/Tracker/Kept.antt =====
-- The tables stay sound over any calls (signal_tracker/service.py).
mod Refreshed
use signal_lab.Common.{
  arith, ℕ, ◌+◌, ◌≡◌, refl, inl, inr, false, ◌&&◌, Bool-cases, Option, none, some, List, [], ◌∷◌,
  Result, ok, err, Exec, pure, commit, write, Both, Keeps, Keeps-bind,
}
use signal_lab.Common.Float.{Floats}
use signal_lab.Common.Text.{Text}
use signal_lab.Tracker.Models.{Recommendation, ExtractedRec, active}
use signal_lab.Tracker.Repo.{
  Draft, get_or_create_source, insert_recommendation, find_duplicate, get_recommendation,
  list_recommendations, update_rec, upsert_performance,
}
use signal_lab.Tracker.Resolve.{NameIndex, resolve_name, result_of, one_per_symbol, hits_of, Item}
use signal_lab.Tracker.EventStudy.{
  Bar, Baseline, anchor_baseline, compute_windows, day_of, trading_days_ahead,
}
use signal_lab.Tracker.Service.{
  Session, Error, BarsReader, Stamp, naive, aware, ChatMessage, Counts, Request, fetch,
  set_baseline, save_baseline, refresh_from, refresh_with, refresh_symbol, refresh_found,
  refresh_recommendation, status_of, is_active, is_explicit, asked_time, or_now, draft_of, counted,
  store_item, import_item, import_items, import_all, alias_index, no_counts, import_messages,
  activate, resolve_found, resolve_pending, refresh_each, refresh_all_active, in_session,
  import_chat, resolve_one, refresh_all, serve, benchmark,
}
use signal_lab.Tracker.Tables.{
  HasSymbol, IsSound, IsEdit, time_or, get_or_create_source-IsSound, insert_recommendation-IsSound,
  update_rec-IsSound, upsert_performance-IsSound,
}
pub use Refreshed.*

-- In the zone of the market the time that is stored is the one that is looked for.
pub or_now-asked_time :
    (lag now : ℕ) (m : Option Stamp) → lag ≡ 0 → or_now lag now m ≡ time_or now (asked_time lag m)
or_now-asked_time lag now none e = refl
or_now-asked_time lag now (some (naive t)) e = omega (arith, e)
or_now-asked_time lag now (some (aware t)) e = refl

module _ {F : Type 0} ⦃fl : Floats F⦄ (reader : BarsReader F) (now : ℕ) where
  store_item-Keeps :
      (time : Option ℕ) (d : Draft F) (c : Counts) (s : Session F)
      → d.message_time ≡ time_or now time
      → find_duplicate d.source_id time d.raw_text s.current.recs ≡ false
      → HasSymbol d.status d.symbol
      → Both IsSound s
      → Both IsSound (store_item reader now d c s).1
  unfolding store_item
  store_item-Keeps time d c s e new symbol h =
      let stored = insert_recommendation-IsSound now time d s.current e new symbol h.0 in
      elim (Bool-cases (is_active d.status && is_explicit d.item.confidence)) [
        | inl yes₁ ↦ rw yes₁ (
            Keeps-bind (Both IsSound) (refresh_recommendation reader now s.current.fresh)
              (λ _. pure (counted d c)) (refresh_recommendation-Keeps reader now s.current.fresh)
              (λ _ s h. h) (write (insert_recommendation now d) s) (stored, h.1))
        | inr no₁ ↦ rw no₁ (stored, h.1)
      ]

  result_of-HasSymbol :
      (hits : List Item) → HasSymbol (status_of (result_of hits).status) (result_of hits).symbol
  result_of-HasSymbol [] = tt
  result_of-HasSymbol (item ∷ []) = refl
  result_of-HasSymbol (item ∷ other ∷ more) = tt

  resolve_name-HasSymbol :
      (name : Text) (index : NameIndex)
      → HasSymbol (status_of (resolve_name name index).status) (resolve_name name index).symbol
  unfolding resolve_name
  resolve_name-HasSymbol name index = result_of-HasSymbol (one_per_symbol [] (hits_of name index))

  import_item-Keeps :
      (src : ℕ) (index : NameIndex) (msg : ChatMessage) (item : ExtractedRec F) (c : Counts)
      → Keeps (Both IsSound) (import_item reader now src index msg item c)
  unfolding import_item
  import_item-Keeps src index msg item c s h =
      elim (Bool-cases (
        find_duplicate src (asked_time s.current.lag msg.message_time) msg.raw_block
          s.current.recs)) [
            | inl old ↦ rw old h
            | inr new ↦ rw new (
                store_item-Keeps (asked_time s.current.lag msg.message_time)
                  (draft_of s.current.lag src now msg item (resolve_name item.symbol_name index)) c
                  s (or_now-asked_time s.current.lag now msg.message_time h.0.at_zone) new
                  (resolve_name-HasSymbol item.symbol_name index) h)
          ]

  import_items-Keeps :
      (src : ℕ) (index : NameIndex) (msg : ChatMessage) (items : List (ExtractedRec F)) (c : Counts)
      → Keeps (Both IsSound) (import_items reader now src index msg items c)
  unfolding import_items
  import_items-Keeps src index msg [] c s h = h
  import_items-Keeps src index msg (item ∷ items) c s h =
      Keeps-bind (Both IsSound) (import_item reader now src index msg item c)
        (import_items reader now src index msg items) (import_item-Keeps src index msg item c)
        (import_items-Keeps src index msg items) s h

  import_all-Keeps :
      (src : ℕ) (index : NameIndex) (items : List (ChatMessage × List (ExtractedRec F)))
      (c : Counts)
      → Keeps (Both IsSound) (import_all reader now src index items c)
  unfolding import_all
  import_all-Keeps src index [] c s h = h
  import_all-Keeps src index ((msg, items) ∷ rest) c s h =
      Keeps-bind (Both IsSound) (import_items reader now src index msg items c)
        (import_all reader now src index rest) (import_items-Keeps src index msg items c)
        (import_all-Keeps src index rest) s h

  import_messages-Keeps :
      (name channel : Text) (items : List (ChatMessage × List (ExtractedRec F)))
      → Keeps (Both IsSound) (import_messages reader now name channel items)
  unfolding import_messages
  import_messages-Keeps name channel items s h =
      let (src, db) = get_or_create_source name channel now s.current in
      Keeps-bind (Both IsSound) (import_all reader now src.id (alias_index reader) items no_counts)
        (λ c t. (ok c, commit t)) (import_all-Keeps src.id (alias_index reader) items no_counts)
        (λ c s h. (h.0, h.0)) (record s { current = db })
        (get_or_create_source-IsSound name channel now s.current h.0, h.1)

module _ {F : Type 0} ⦃fl : Floats F⦄ where
  in_session-Keeps :
      {A : Type 0} (call : Exec (Session F) Error A)
      → Keeps (Both IsSound) call
      → (s : Session F) → Both IsSound s
      → Both IsSound (in_session call s)
  unfolding in_session
  in_session-Keeps call k s h = let after = k s h in (after.1, after.1)

  -- Where the session of the database is in the zone of the market: whatever calls are made, no two
  -- recommendations have one id, nor one source, time and text; one that is active has its symbol; no
  -- two sources have one name; and no recommendation has two results for a window.
  pub serve-Both :
      (calls : List (BarsReader F × Request F)) (s : Session F)
      → Both IsSound s
      → Both IsSound (serve calls s)
  unfolding serve
  serve-Both [] s h = h
  serve-Both ((reader, import_chat now name channel items) ∷ rest) s h =
      serve-Both rest (in_session (import_messages reader now name channel items) s) (
        in_session-Keeps (import_messages reader now name channel items)
          (import_messages-Keeps reader now name channel items) s h)
  serve-Both ((reader, resolve_one now id symbol) ∷ rest) s h =
      serve-Both rest (in_session (resolve_pending reader now id symbol) s) (
        in_session-Keeps (resolve_pending reader now id symbol)
          (resolve_pending-Keeps reader now id symbol) s h)
  serve-Both ((reader, refresh_all now) ∷ rest) s h =
      serve-Both rest (in_session (refresh_all_active reader now) s)
        (in_session-Keeps (refresh_all_active reader now) (refresh_all_active-Keeps reader now) s h)
