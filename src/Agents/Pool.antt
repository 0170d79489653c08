-- ===== src/Agents/Pool.antt =====
-- packages/agents/src/signal_agents/candidates.py, `build_candidate_pool`.
use signal_lab.Common.{
  ℕ, Bool, true, false, not, ◌&&◌, leb, List, [], ◌∷◌, ◌++◌, if◌then◌else◌, length,
}
use signal_lab.Common.Text.{Text}
use signal_lab.Common.TextSet.{is_in}

-- `if s`
abbrev pub is_given : Text → Bool
is_given [] = false
is_given (c ∷ s) = true

-- The body of the loop; the set `seen` is the set of the symbols.
unfoldable pub add_symbol : Text → List Text → List Text
add_symbol s symbols = if is_given s && not (is_in s symbols) then symbols ++ s ∷ [] else symbols

unfoldable pub collect : ℕ → List Text → List Text → List Text
unfolding add_symbol
collect limit [] symbols = symbols
collect limit (s ∷ rest) symbols =
    let more = collect limit rest (add_symbol s symbols) in
    if leb limit (length (add_symbol s symbols)) then add_symbol s symbols else more

-- The watchlist, the recent recommendations and the extra symbols, in that order.
unfoldable pub build_candidate_pool : List Text → (ℕ → ℕ → List Text) → List Text → ℕ → List Text
unfolding collect
build_candidate_pool watchlist recent extra limit =
    collect limit (watchlist ++ recent 30 limit ++ extra) []
