-- ===== src/Agents/Snapshot.antt =====
-- packages/agents/src/signal_agents/candidates.py, `snapshot_symbol`: the closes of some sixty days.
use signal_lab.Common.{
  ℕ, zero, suc, ◌-◌, Bool, leb, ltb, Option, none, some, List, [], ◌∷◌, if◌then◌else◌, length,
  Result, ok, err,
}
use signal_lab.Common.Float.{Floats}
use signal_lab.Common.Text.{Text}
use signal_lab.Agents.Rules.{CandidateSnapshot}

-- A call of a port, and what is done with its answer.
abbrev pub and_then : {E A B : Type 0} → Result E A → (A → Result E B) → Result E B
and_then (ok a) k = k a
and_then (err e) k = err e

abbrev pub drop : {A : Type 0} → ℕ → List A → List A
drop zero xs = xs
drop (suc n) [] = []
drop (suc n) (x ∷ xs) = drop n xs

-- `closes.tail(n)`
unfoldable pub tail : {A : Type 0} → ℕ → List A → List A
tail n xs = drop (length xs - n) xs

abbrev pub first : {A : Type 0} → List A → Option A
first [] = none
first (x ∷ xs) = some x

module _ {F : Type 0} ⦃fl : Floats F⦄ where
  abbrev pub growth : F → Option F → Option F
  growth close none = none
  growth close (some c) = some (fl.sub (fl.div close c) (fl.lit 1 0))

  -- The return over `n` days, where there are as many.
  unfoldable pub return_over : ℕ → List F → F → Option F
  unfolding tail
  return_over n closes close =
      if leb (suc n) (length closes) then growth close (first (tail (suc n) closes)) else none

  -- `mean` is numpy's.
  unfoldable pub moving_average : (List F → F) → ℕ → List F → Option F
  unfolding tail
  moving_average mean n closes = if leb n (length closes) then some (mean (tail n closes)) else none

  abbrev pub above : F → Option F → Option Bool
  above close none = none
  above close (some ma) = if fl.eq ma (fl.lit 0 0) then none else some (fl.lt ma close)

  abbrev pub snapshot_of : (List F → F) → Text → List F → F → Option F → CandidateSnapshot F
  snapshot_of mean symbol closes close win_rate = record {
    symbol = symbol;
    close = close;
    ret_5d = return_over 5 closes close;
    ret_20d = return_over 20 closes close;
    ma5 = moving_average mean 5 closes;
    ma20 = moving_average mean 20 closes;
    above_ma20 = above close (moving_average mean 20 closes);
    win_rate = win_rate;
  }

  abbrev pub snapshot_at :
      (List F → F)
      → Text
      → List F
      → Option F
      → Result Text (Option F)
      → Result Text (Option (CandidateSnapshot F))
  snapshot_at mean symbol closes none stats = ok none
  snapshot_at mean symbol closes (some close) stats =
      and_then stats λ win_rate. ok (some (snapshot_of mean symbol closes close win_rate))

  -- The bars are read first, and the statistics of the tracker only if there are enough.
  unfoldable pub snapshot_symbol :
      (List F → F)
      → Text
      → Result Text (List F)
      → Result Text (Option F)
      → Result Text (Option (CandidateSnapshot F))
  unfolding return_over moving_average
  snapshot_symbol mean symbol bars stats = and_then bars λ closes.
      if ltb (length closes) 6
      then ok none
      else snapshot_at mean symbol closes (first (tail 1 closes)) stats
