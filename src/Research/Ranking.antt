-- ===== src/Research/Ranking.antt =====
-- packages/research/src/signal_research/validator.py, `generate_signals_for_date`.
use signal_lab.Common.{
  ℕ, Bool, leb, ltb, any, none, some, List, [], ◌∷◌, ◌++◌, map, if◌then◌else◌, length, take, select,
  Result, ok, err,
}
use signal_lab.Common.Text.{Text, text_eq}
use signal_lab.Common.Float.{Floats}
use signal_lab.Contracts.Package.{Manifest}
use signal_lab.Research.Models.{SignalAction, buy, sell}
use signal_lab.Research.Ports.{Bar}
use signal_lab.Research.Expr.{expr_error, raised}
use signal_lab.Research.Validator.{Statistics, expression_of, take_last}

module _ {F : Type 0} ⦃fl : Floats F⦄ where
  -- `scores.sort(key=score, reverse=True)`: stable, the highest score first.
  unfoldable pub insert_score : Text × F → List (Text × F) → List (Text × F)
  insert_score x [] = x ∷ []
  insert_score x (y ∷ ys) = if fl.lt x.1 y.1 then y ∷ insert_score x ys else x ∷ y ∷ ys

  unfoldable pub sort_scores : List (Text × F) → List (Text × F)
  unfolding insert_score
  sort_scores [] = []
  sort_scores (x ∷ xs) = insert_score x (sort_scores xs)

  abbrev pub named : Text → Text × SignalAction × F → Bool
  named symbol r = text_eq r.0 symbol

  -- The second loop: a symbol that has a row already is passed over.
  unfoldable pub add_sells :
      List (Text × F) → List (Text × SignalAction × F) → List (Text × SignalAction × F)
  add_sells [] out = out
  add_sells (x ∷ xs) out =
      if any (named x.0) out then add_sells xs out else add_sells xs (out ++ (x.0, sell, x.1) ∷ [])

  -- The rows of scores in descending order, by symbol, action and score.
  unfoldable pub rank_scores : ℕ → List (Text × F) → List (Text × SignalAction × F)
  unfolding add_sells
  rank_scores top_n scores =
      add_sells (if ltb top_n (length scores) then take_last top_n scores else [])
        (map (λ x. (x.0, buy, x.1)) (take top_n scores))

  module _ (stats : Statistics F) where
    -- `bars.loc[bars["trade_date"] <= trade_date].tail(60)`
    abbrev pub until : ℕ → List (Bar F) → List (Bar F)
    until date bars = take_last 60 (select (λ b. leb b.trade_date date) bars)

    -- The list `scores`; only an ExprError is passed over.
    unfoldable pub scores_of : Text → ℕ → List (Text × List (Bar F)) → Result Text (List (Text × F))
    scores_of e date [] = ok []
    scores_of e date ((symbol, bars) ∷ rest) =
        let others = scores_of e date rest in
        if ltb (length (until date bars)) 5
        then others
        else elim (stats.last_value e (until date bars)) [
          | err expr_error ↦ others
          | err (raised x) ↦ err x
          | ok none ↦ others
          | ok (some v) ↦ elim others [ err x ↦ err x | ok scores ↦ ok ((symbol, v) ∷ scores) ]
        ]

    unfoldable pub generate_signals_for_date :
        Manifest F → List (Text × List (Bar F)) → ℕ → Result Text (List (Text × SignalAction × F))
    unfolding rank_scores sort_scores
    generate_signals_for_date m bars date = elim (scores_of (expression_of m) date bars) [
      | err x ↦ err x
      | ok scores ↦ ok (rank_scores 5 (sort_scores scores))
    ]
