-- ===== src/Datahub/Tests.antt =====
-- The codes of a stock.
use signal_lab.Common.{◌≡◌, refl, some}
use signal_lab.Common.Text.{Text, codes}
use signal_lab.Datahub.Symbols.{normalize_symbol, to_qlib_code, from_qlib_code}
use signal_lab.Datahub.Forms.{qlib_round_trip}

qlib_round_trip_example :
    (q : Text) × (to_qlib_code (codes "000300") ≡ some q)
    × (from_qlib_code q ≡ some (codes "000300.SH"))
unfolding normalize_symbol signal_lab.Datahub.Symbols.full_match signal_lab.Common.Text.strip
    signal_lab.Datahub.Symbols.prefix_match signal_lab.Common.any signal_lab.Common.Text.text_eq
qlib_round_trip_example = qlib_round_trip (codes "000300") (codes "000300.SH") refl
