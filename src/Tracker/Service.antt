-- ===== src/Tracker/Service.antt =====
-- packages/tracker/src/signal_tracker/service.py, `ImportService`: what is read out of a chat is
-- stored, and its performance is computed again. A call reads the clock once, on the clock of the
-- market; what a call raises leaves the session as it was then, and the route ends the session.
mod Refresh
use signal_lab.Common.{
  ℕ, ◌+◌, Bool, true, false, ◌&&◌, Option, none, some, List, [], ◌∷◌, map, if◌then◌else◌, Result,
  ok, err, Exec, ◌>>=◌, ◌>>◌, pure, raise, modify, Transaction, commit, rollback, write,
}
use signal_lab.Common.Float.{Floats}
use signal_lab.Common.Text.{Text, codes}
use signal_lab.Tracker.Models.{
  Status, pending, active, Confidence, explicit, ExtractedRec, Recommendation,
}
use signal_lab.Tracker.Repo.{
  Db, Draft, get_or_create_source, insert_recommendation, find_duplicate, get_recommendation,
  update_rec, list_recommendations, upsert_performance,
}
use signal_lab.Tracker.Resolve.{
  Item, NameIndex, ResolveResult, ResolveStatus, resolved, build_name_index, resolve_name,
}
use signal_lab.Tracker.EventStudy.{
  Bar, Baseline, day_of, anchor_baseline, compute_windows, trading_days_ahead,
}
unfoldable pub use Refresh.*

-- The counts of `import_messages`.
pub record Counts : Type 0 where
  pub created : ℕ
  pub skipped : ℕ
  pub waiting : ℕ

abbrev pub status_of : ResolveStatus → Status
status_of resolved = active
status_of _ = pending

abbrev pub is_active : Status → Bool
is_active active = true
is_active _ = false

abbrev pub is_explicit : Confidence → Bool
is_explicit explicit = true
is_explicit _ = false

abbrev pub swap : Text × Text → Item
swap (alias, symbol) = (symbol, alias)

-- The index of the aliases, which give the instruments too.
abbrev pub alias_index : {F : Type 0} → BarsReader F → NameIndex
alias_index reader = build_name_index reader.list_aliases (map swap reader.list_aliases)

abbrev pub no_counts : Counts
no_counts = record { created = 0; skipped = 0; waiting = 0 }

-- `ts.replace(tzinfo=CN_TZ)`, where it has no zone
abbrev pub with_zone : Stamp → Stamp
with_zone (naive t) = aware t
with_zone (aware t) = aware t

-- What a column of a timestamp with its zone makes of a value.
abbrev pub as_column : ℕ → Stamp → ℕ
as_column lag (naive t) = t + lag
as_column lag (aware t) = t

-- The time that `find_duplicate` looks for: the one of the message as it is.
abbrev pub asked_time : ℕ → Option Stamp → Option ℕ
asked_time lag none = none
asked_time lag (some t) = some (as_column lag t)

-- The time that is stored.
abbrev pub or_now : ℕ → ℕ → Option Stamp → ℕ
or_now lag now none = now
or_now lag now (some t) = as_column lag (with_zone t)

module _ {F : Type 0} where
  abbrev pub activate : Text → Recommendation F → Recommendation F
  activate symbol r = record r { symbol = some symbol; status = active }

  abbrev pub draft_of : ℕ → ℕ → ℕ → ChatMessage → ExtractedRec F → ResolveResult → Draft F
  draft_of lag source_id now msg item r = record {
    source_id = source_id;
    message_time = or_now lag now msg.message_time;
    symbol = r.symbol;
    item = item;
    raw_text = msg.raw_block;
    status = status_of r.status;
  }

  -- `now` holds for all messages without a time.
  abbrev pub counted : Draft F → Counts → Counts
  counted d c = record c {
    created = c.created + 1;
    waiting = if is_active d.status then c.waiting else c.waiting + 1;
  }

module _ {F : Type 0} ⦃fl : Floats F⦄ (reader : BarsReader F) (now : ℕ) where
  -- The row of an item that is no duplicate, and its first performance.
  unfoldable pub store_item : Draft F → Counts → Exec (Session F) Error Counts
  unfolding refresh_recommendation
  store_item d c s =
      let id = s.current.fresh in
      let s' = write (insert_recommendation now d) s in
      (if is_active d.status && is_explicit d.item.confidence
          then refresh_recommendation reader now id >> pure (counted d c)
          else pure (counted d c))
        s'

  unfoldable pub import_item :
      ℕ → NameIndex → ChatMessage → ExtractedRec F → Counts → Exec (Session F) Error Counts
  unfolding store_item
  import_item source_id index msg item c s =
      if find_duplicate source_id (asked_time s.current.lag msg.message_time) msg.raw_block
        s.current.recs
      then (ok (record c { skipped = c.skipped + 1 }), s)
      else store_item
          (draft_of s.current.lag source_id now msg item (resolve_name item.symbol_name index)) c s

  unfoldable pub import_items :
      ℕ → NameIndex → ChatMessage → List (ExtractedRec F) → Counts → Exec (Session F) Error Counts
  unfolding import_item
  import_items source_id index msg [] c = pure c
  import_items source_id index msg (item ∷ items) c = do
    c' ← import_item source_id index msg item c
    import_items source_id index msg items c'

  -- The messages, each with what was extracted from it.
  unfoldable pub import_all :
      ℕ
      → NameIndex
      → List (ChatMessage × List (ExtractedRec F))
      → Counts
      → Exec (Session F) Error Counts
  unfolding import_items
  import_all source_id index [] c = pure c
  import_all source_id index ((msg, items) ∷ rest) c = do
    c' ← import_items source_id index msg items c
    import_all source_id index rest c'

  unfoldable pub import_messages :
      Text → Text → List (ChatMessage × List (ExtractedRec F)) → Exec (Session F) Error Counts
  unfolding import_all
  import_messages source_name channel items s =
      let (src, db) = get_or_create_source source_name channel now s.current in
      (import_all src.id (alias_index reader) items no_counts >>= λ c. (λ t. (ok c, commit t)))
        (record s { current = db })

  abbrev pub resolve_found :
      ℕ → Text → Option (Recommendation F) → Exec (Session F) Error (Unit {0})
  resolve_found id symbol none = raise (unknown_rec id)
  resolve_found id symbol (some rec) = do
    modify
        (λ s. commit (write (λ db. record db { recs = update_rec id (activate symbol) db.recs }) s))
    refresh_recommendation reader now id

  unfoldable pub resolve_pending : ℕ → Text → Exec (Session F) Error (Unit {0})
  unfolding refresh_recommendation
  resolve_pending id symbol s = resolve_found id symbol (get_recommendation id s.current.recs) s

  -- `n` counts the explicit ones.
  unfoldable pub refresh_each : List (Recommendation F) → ℕ → Exec (Session F) Error ℕ
  unfolding refresh_recommendation
  refresh_each [] n = pure n
  refresh_each (rec ∷ recs) n =
      let next = refresh_recommendation reader now rec.id >> refresh_each recs (n + 1) in
      let skip = refresh_each recs n in if is_explicit rec.confidence then next else skip

  unfoldable pub refresh_all_active : Exec (Session F) Error ℕ
  unfolding refresh_each
  refresh_all_active s =
      refresh_each (list_recommendations none (some active) 10000 s.current.recs) 0 s

pub data Request (F : Type 0) : Type 0 where
  import_chat : ℕ → Text → Text → List (ChatMessage × List (ExtractedRec F)) → Request F
  resolve_one : ℕ → ℕ → Text → Request F
  refresh_all : ℕ → Request F

module _ {F : Type 0} where
  -- A call of the service in a session of its own, which ends with the call.
  unfoldable pub in_session : {A : Type 0} → Exec (Session F) Error A → Session F → Session F
  in_session call s = rollback (call s).1

module _ {F : Type 0} ⦃fl : Floats F⦄ where
  -- The routes that change a table; the market data may have changed since the last call.
  unfoldable pub serve : List (BarsReader F × Request F) → Session F → Session F
  unfolding in_session
  serve [] s = s
  serve ((reader, import_chat now name channel items) ∷ rest) s =
      serve rest (in_session (import_messages reader now name channel items) s)
  serve ((reader, resolve_one now id symbol) ∷ rest) s =
      serve rest (in_session (resolve_pending reader now id symbol) s)
  serve ((reader, refresh_all now) ∷ rest) s =
      serve rest (in_session (refresh_all_active reader now) s)
