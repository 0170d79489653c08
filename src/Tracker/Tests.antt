-- ===== src/Tracker/Tests.antt =====
-- Runs of the tracker over ten-thousandths, and the theorems at such inputs.
use signal_lab.Common.{
  ℕ, ◌+◌, ◌-◌, ◌*◌, ◌++◌, ◌<◌, ◌≡◌, ◌⊎◌, refl, Bool, true, false, Option, none, some, List, [], ◌∷◌,
  All, arith, length, Pairwise, Result, ok, err, Both,
}
use signal_lab.Common.Int.{ℤ, pos}
use signal_lab.Common.Fixed.{fixed}
use signal_lab.Common.Text.{Text, codes}
use signal_lab.Tracker.Models.{ExtractedRec, buy, explicit, short, close_same_day}
use signal_lab.Tracker.EventStudy.{
  Bar, Baseline, reaches, falls_to, flag_for, hit_flags, anchor_baseline, compute_windows,
}
use signal_lab.Tracker.Hits.{first_index, no_later, before, hit_flags_lem}
use signal_lab.Tracker.Windows.{find_window, compute_windows_settled}
use signal_lab.Tracker.Resolve.{hits_of, build_name_index, resolve_name, NameIndex}
use signal_lab.Tracker.Named.{Says, resolve_name-Says}
use signal_lab.Tracker.Repo.{Db}
use signal_lab.Tracker.Service.{
  naive, BarsReader, ChatMessage, Session, import_chat, import_messages, serve,
}
use signal_lab.Tracker.Tables.{IsSound}
use signal_lab.Tracker.Kept.{serve-Both}
use signal_lab.Tracker.Again.{Extracted, import_again}
use signal_lab.Tracker.Stats.{join, source_stats}
use signal_lab.Tracker.Ranked.{Right, OtherSource, has_entry, source_stats-Right}

-- Prices in ten-thousandths of a unit: a day that closes at `c`, between `c` - 1 and `c` + 1.
abbrev day : ℕ → ℕ → Bar ℤ
day date c = record {
  trade_date = date;
  open_price = pos (c * 10000);
  high = pos (c * 10000 + 10000);
  low = pos (c * 10000 - 10000);
  close = pos (c * 10000);
}

abbrev bars : List (Bar ℤ)
bars = day 20000 10 ∷ day 20001 11 ∷ day 20002 12 ∷ day 20003 9 ∷ []

abbrev start : Baseline ℤ
start = record { date = 20000; price = pos 100000; rule = close_same_day }

hit_flags_lem_example :
    let i = first_index (reaches (some (pos 130000))) bars in
    let j = first_index (falls_to (some (pos 80000))) bars in
    hit_flags bars (some (pos 130000)) (some (pos 80000))
    ≡ (flag_for (some (pos 130000)) (no_later i j), flag_for (some (pos 80000)) (before j i))
hit_flags_lem_example = hit_flags_lem (some (pos 130000)) (some (pos 80000)) bars

compute_windows_settled_example :
    find_window 3 (compute_windows (bars ++ day 20004 20 ∷ []) start [] none none)
    ≡ find_window 3 (compute_windows bars start [] none none)
unfolding signal_lab.Common.select
compute_windows_settled_example =
    compute_windows_settled start [] none none bars (day 20004 20 ∷ []) 3 (omega arith)

abbrev aliases : List (Text × Text)
aliases = (codes "贵州茅台", codes "600519.SH") ∷ (codes "茅台", codes "600519.SH") ∷ []

abbrev instruments : List (Text × Text)
instruments = (codes "600519.SH", codes "贵州茅台") ∷ []

abbrev index : NameIndex
index = build_name_index aliases instruments

resolve_name-Says_example : Says (hits_of (codes "茅台") index) (resolve_name (codes "茅台") index)
resolve_name-Says_example = resolve_name-Says (codes "茅台") index

abbrev reader : BarsReader ℤ
reader = record { get_qfq_bars = λ symbol from until. ok bars; list_aliases = aliases }

abbrev empty : Session ℤ
empty =
    let db : Db ℤ = record { sources = []; recs = []; perfs = []; fresh = 0; lag = 0 } in
    record { current = db; committed = db }

empty-IsSound : IsSound empty.current
empty-IsSound = record {
  old_ids = tt;
  ids = tt;
  unlike = tt;
  named = tt;
  sources = tt;
  windows = tt;
  at_zone = refl;
}

abbrev item : Text → ExtractedRec ℤ
item name = record {
  symbol_name = name;
  action = buy;
  confidence = explicit;
  target_price = some (pos 130000);
  stop_loss = none;
  horizon = short;
  reason = [];
}

abbrev message : ChatMessage
message = record {
  speaker = codes "teacher";
  message_time = some (naive 1728000000);
  text = codes "茅台 五粮液";
  raw_block = codes "茅台 五粮液";
}

-- One message about two stocks.
abbrev chat : List (Extracted ℤ)
chat = (message, item (codes "茅台") ∷ item (codes "五粮液") ∷ []) ∷ []

serve-Both_example :
    Both IsSound
      (serve ((reader, import_chat 1728000100 (codes "desk") (codes "paste") chat) ∷ []) empty)
serve-Both_example =
    serve-Both ((reader, import_chat 1728000100 (codes "desk") (codes "paste") chat) ∷ []) empty
      (empty-IsSound, empty-IsSound)

-- The second stock of the message is dropped as a duplicate of the first.
first_stock_only :
    (import_messages reader 1728000100 (codes "desk") (codes "paste") chat empty).0
    ≡ ok (record { created = 1; skipped = 1; waiting = 0 })
unfolding import_messages signal_lab.Tracker.Repo.find_duplicate signal_lab.Common.any
    signal_lab.Tracker.Repo.get_or_create_source resolve_name build_name_index
    signal_lab.Tracker.Resolve.norm signal_lab.Common.select signal_lab.Common.Text.strip
    signal_lab.Common.Text.text_eq signal_lab.Tracker.Repo.get_recommendation
    signal_lab.Tracker.Repo.insert_recommendation anchor_baseline
    signal_lab.Tracker.Repo.upsert_performance compute_windows signal_lab.Tracker.Repo.update_rec
first_stock_only = refl

import_again_example :
    let s' = (import_messages reader 1728000100 (codes "desk") (codes "paste") chat empty).1 in
    import_messages reader 1728000200 (codes "desk") (codes "paste") chat s'
    ≡ (ok (record { created = 0; skipped = 2; waiting = 0 }), s')
import_again_example =
    import_again reader reader 1728000100 1728000200 (codes "desk") (codes "paste") (codes "paste")
      chat (record { created = 1; skipped = 1; waiting = 0 }) empty refl first_stock_only

-- The session of a database in UTC, eight hours behind the market.
abbrev utc : Session ℤ
utc =
    let db : Db ℤ = record { sources = []; recs = []; perfs = []; fresh = 0; lag = 28800 } in
    record { current = db; committed = db }

-- There the naive time of a message is never found, and a second import stores everything again.
utc_repeats :
    let s' = (import_messages reader 1728000100 (codes "desk") (codes "paste") chat utc).1 in
    (import_messages reader 1728000200 (codes "desk") (codes "paste") chat s').0
    ≡ ok (record { created = 2; skipped = 0; waiting = 1 })
unfolding import_messages signal_lab.Tracker.Repo.find_duplicate signal_lab.Common.any
    signal_lab.Tracker.Repo.get_or_create_source resolve_name build_name_index
    signal_lab.Tracker.Resolve.norm signal_lab.Common.select signal_lab.Common.Text.strip
    signal_lab.Common.Text.text_eq signal_lab.Tracker.Repo.get_recommendation
    signal_lab.Tracker.Repo.insert_recommendation anchor_baseline
    signal_lab.Tracker.Repo.upsert_performance compute_windows signal_lab.Tracker.Repo.update_rec
    signal_lab.Common.Text.ends_with
utc_repeats = refl

abbrev imported : Db ℤ
imported = (import_messages reader 1728000100 (codes "desk") (codes "paste") chat empty).1.current

source_stats-Right_example :
    let os = join 3 imported.perfs imported.recs imported.sources in
    All (Right os) (source_stats 3 imported)
    × Pairwise OtherSource (source_stats 3 imported)
    × All (λ o. has_entry o.source_id (source_stats 3 imported) ≡ true) os
source_stats-Right_example = source_stats-Right 3 imported
