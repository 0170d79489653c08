-- ===== src/Agents/Tests.antt =====
-- A pool of two symbols, and a sale that the risk manager forces.
use signal_lab.Common.{ℕ, ◌≡◌, ◌≤◌, ◌<◌, true, none, some, List, [], ◌∷◌, ◌++◌, length, All, arith}
use signal_lab.Common.Int.{ℤ, pos}
use signal_lab.Common.Fixed.{fixed}
use signal_lab.Common.Text.{Text, codes}
use signal_lab.Common.TextSet.{is_in}
use signal_lab.Agents.Pool.{is_given, build_candidate_pool}
use signal_lab.Agents.Rules.{CandidateSnapshot, minus}
use signal_lab.Agents.Chosen.{Clean, build_candidate_pool-Clean}

abbrev watched : List Text
watched = codes "600519.SH" ∷ [] ∷ codes "600519.SH" ∷ []

abbrev recommended : ℕ → ℕ → List Text
recommended days limit = codes "000001.SZ" ∷ []

build_candidate_pool-Clean_example :
    let sources = watched ++ recommended 30 5 ++ [] in
    let pool = build_candidate_pool watched recommended [] 5 in
    Clean pool
    × All (λ s. is_in s sources ≡ true) pool
    × (length pool ≤ 5)
    × (length pool < 5 → All (λ s. is_given s ≡ true → is_in s pool ≡ true) sources)
build_candidate_pool-Clean_example =
    build_candidate_pool-Clean watched recommended [] 5 (omega arith)

-- Down fifteen percent in five days.
abbrev fallen : CandidateSnapshot ℤ
fallen = record {
  symbol = codes "600519.SH";
  close = pos 85000;
  ret_5d = some (minus 15 2);
  ret_20d = none;
  ma5 = none;
  ma20 = none;
  above_ma20 = some true;
  win_rate = none;
}
