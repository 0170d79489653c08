-- ===== src/Agents/Adopt.antt =====
-- packages/agents/src/signal_agents/service.py, `adopt_signal`: a signal becomes a paper order.
use mathlib.Core.Path.{subst}
use signal_lab.Common.{
  ℕ, ◌≡◌, refl, ◌⊎◌, inl, inr, Bool, true, false, Bool-cases, Option-cases, ap, sym, Option, none,
  some, ◌++◌, if◌then◌else◌, Result, err, Exec,
}
use signal_lab.Common.Int.{ℤ, pos, leb_ℤ}
use signal_lab.Common.Text.{Text, codes, show_ℕ}
use signal_lab.Agents.Rules.{Action, hold}
use signal_lab.Agents.Repo.{Signal, Db, get_signal}

pub data AdoptError : Type 0 where
  key_error : ℕ → AdoptError
  value_error : Text → AdoptError
  order_refused : Text → AdoptError

-- The port of the simulated account, which keeps a state of its own.
pub record PaperPort (S O : Type 0) : Type 0 where
  pub place_order : ℕ → Text → Action → ℤ → Text → Exec S AdoptError O

abbrev pub is_hold : Action → Bool
is_hold hold = true
is_hold _ = false

abbrev pub or_suggested : Option ℤ → ℤ → ℤ
or_suggested none q = q
or_suggested (some q) suggested = q

module _ {F S O : Type 0} (paper : PaperPort S O) where
  abbrev pub adopt_found : ℕ → ℕ → Option ℤ → Option (Signal F) → Exec S AdoptError O
  adopt_found signal_id account_id quantity none s = (err (key_error signal_id), s)
  adopt_found signal_id account_id quantity (some g) s =
      let q = or_suggested quantity g.suggested_qty in
      if is_hold g.action
      then (err (value_error (codes "hold")), s)
      else if leb_ℤ q (pos 0)
      then (err (value_error (codes "quantity")), s)
      else paper.place_order account_id g.symbol g.action q (codes "adopt signal " ++ show_ℕ g.id) s

  unfoldable pub adopt_signal : Db F → ℕ → ℕ → Option ℤ → Exec S AdoptError O
  unfolding get_signal
  adopt_signal db signal_id account_id quantity =
      adopt_found signal_id account_id quantity (get_signal signal_id db)

  -- What comes of the adoption of a signal that is there: a ValueError, or its order.
  abbrev pub Adopted : ℕ → Option ℤ → Signal F → S → Result AdoptError O × S → Type 0
  Adopted account_id quantity g s r =
      let q = or_suggested quantity g.suggested_qty in
      (((is_hold g.action ≡ true) ⊎ (leb_ℤ q (pos 0) ≡ true))
        × (x : Text) × (r ≡ (err (value_error x), s)))
      ⊎ ((is_hold g.action ≡ false)
          × (leb_ℤ q (pos 0) ≡ false)
          × (r
              ≡ paper.place_order account_id g.symbol g.action q
                  (codes "adopt signal " ++ show_ℕ g.id) s))

  adopt_found-Adopted :
      (signal_id account_id : ℕ) (quantity : Option ℤ) (g : Signal F) (s : S)
      → Adopted account_id quantity g s (adopt_found signal_id account_id quantity (some g) s)
  adopt_found-Adopted signal_id account_id quantity g s = elim (Bool-cases (is_hold g.action)) [
    | inl yes₁ ↦ inl (inl yes₁, codes "hold", rw yes₁ refl)
    | inr no₁ ↦ elim (Bool-cases (leb_ℤ (or_suggested quantity g.suggested_qty) (pos 0))) [
      | inl yes₂ ↦ inl (inr yes₂, codes "quantity", rw (no₁, yes₂) refl)
      | inr no₂ ↦ inr (no₁, no₂, rw (no₁, no₂) refl)
    ]
  ]

  -- Adopting an unknown signal is a KeyError, one to hold or a quantity that is not positive a
  -- ValueError, and neither touches the account; otherwise just the order of the signal is placed,
  -- for the quantity that is given or else the one that was suggested.
  pub adopt_signal-Adopted :
      (db : Db F) (signal_id account_id : ℕ) (quantity : Option ℤ) (s : S)
      → let r = adopt_signal db signal_id account_id quantity s in
        ((get_signal signal_id db ≡ none) × (r ≡ (err (key_error signal_id), s)))
        ⊎ ((g : Signal F) × (get_signal signal_id db ≡ some g) × Adopted account_id quantity g s r)
  unfolding adopt_signal
  adopt_signal-Adopted db signal_id account_id quantity s =
      elim (Option-cases (get_signal signal_id db)) [
        | inl e ↦ inl (e, ap (λ g. adopt_found signal_id account_id quantity g s) e)
        | inr (g, e) ↦ inr (
          g,
          e,
          subst
              (λ o. Adopted account_id quantity g s (adopt_found signal_id account_id quantity o s))
              (sym e) (adopt_found-Adopted signal_id account_id quantity g s),
        )
      ]
