-- ===== src/Paper/Valued.antt =====
-- The value of an account at a close (`settle` of signal_papertrade/service.py).
use signal_lab.Common.{
  ℕ, ◌==◌, ◌≡◌, ◌≢◌, ◌⊎◌, refl, inl, inr, true, false, Bool-cases, Option, none, some, List, [],
  ◌∷◌, arith, ◌&&◌,
}
use signal_lab.Common.Int.{pos, ltb_ℤ}
use signal_lab.Common.Float.{Floats}
use signal_lab.Common.Text.{Text}
use signal_lab.Paper.Models.{Account, Position, NavPoint, Db}
use signal_lab.Paper.Repo.{list_positions}
use signal_lab.Paper.Ports.{PriceReader}
use signal_lab.Paper.Service.{benchmark, mark_price, market_value, nav_point}

module _ {F : Type 0} ⦃fl : Floats F⦄ (prices : PriceReader F) (date : ℕ) where
  -- The close of the day, or where it has no quote the last close before; none without either.
  abbrev pub Marked : Text → Option F → Type 0
  Marked symbol (some px) =
      ((o : F) × (prices.get_open_close symbol date ≡ some (o, px)))
      ⊎ ((prices.get_open_close symbol date ≡ none) × (prices.get_prev_close symbol date ≡ some px))
  Marked symbol none =
      (prices.get_open_close symbol date ≡ none) × (prices.get_prev_close symbol date ≡ none)

  -- The holdings of an account in a table, at their marks, are summed up from a start to a total.
  pub data Sums (account : ℕ) : List (Position F) → F → F → Type 0 where
    done : {mv : F} → Sums account [] mv mv
    -- a row of another account, and one that is sold out
    passed :
        {p : Position F} {ps : List (Position F)} {mv total : F}
        → (p.account_id ≢ account) ⊎ (ltb_ℤ (pos 0) p.quantity ≡ false)
        → Sums account ps mv total
        → Sums account (p ∷ ps) mv total
    unmarked :
        {p : Position F} {ps : List (Position F)} {mv total : F}
        → p.account_id ≡ account
        → Marked p.symbol none
        → Sums account ps mv total
        → Sums account (p ∷ ps) mv total
    marked :
        {p : Position F} {ps : List (Position F)} {mv total : F} (px : F)
        → p.account_id ≡ account
        → ltb_ℤ (pos 0) p.quantity ≡ true
        → Marked p.symbol (some px)
        → Sums account ps (fl.add mv (fl.mul (fl.of_int p.quantity) px)) total
        → Sums account (p ∷ ps) mv total

  -- The point of an account: its cash, what its holdings are worth, their sum, and the benchmark.
  pub record Values (db : Db F) (a : Account F) (n : NavPoint F) : Type 0 where
    pub of_account : n.account_id ≡ a.id
    pub on_date : n.trade_date ≡ date
    pub cash : n.cash ≡ a.cash
    pub holdings : Sums a.id db.positions (fl.lit 0 0) n.market_value
    pub nav : n.nav ≡ fl.add a.cash n.market_value
    pub bench : Marked benchmark n.bench_nav

  mark_price-Marked : (symbol : Text) → Marked symbol (mark_price prices symbol date)
  unfolding mark_price
  mark_price-Marked symbol =
      at (prices.get_open_close symbol date) refl (prices.get_prev_close symbol date) refl
    where
      at :
          (q : Option (F × F))
          → prices.get_open_close symbol date ≡ q
          → (c : Option F) → prices.get_prev_close symbol date ≡ c
          → Marked symbol (elim q as (λ _. Option F) [ some (o, px) ↦ some px | none ↦ c ])
      at (some (o, px)) e c d = inl (o, e)
      at none e (some px) d = inr (e, d)
      at none e none d = (e, d)

  -- One holding more, at its mark.
  held-Sums :
      (account : ℕ) (p : Position F) (ps : List (Position F)) (mv : F) (total : F → F)
      (m : Option F)
      → p.account_id ≡ account
      → ltb_ℤ (pos 0) p.quantity ≡ true
      → ((v : F) → Sums account ps v (total v))
      → Marked p.symbol m
      → Sums account (p ∷ ps) mv (
          total (elim m as (λ _. F) [
            | none ↦ mv
            | some px ↦ fl.add mv (fl.mul (fl.of_int p.quantity) px)
          ]))
  held-Sums account p ps mv total none a q h m = unmarked a m (h mv)
  held-Sums account p ps mv total (some px) a q h m = marked px a q m (h _)

  market_value-Sums :
      (account : ℕ) (ps : List (Position F)) (mv : F)
      → Sums account ps mv (market_value prices date (list_positions account ps) mv)
  unfolding list_positions market_value signal_lab.Common.select
  market_value-Sums account [] mv = done
  market_value-Sums account (p ∷ ps) mv = elim (Bool-cases (p.account_id == account)) [
    | inr off ↦ rw off (passed (inl (ground (arith, off))) (market_value-Sums account ps mv))
    | inl on ↦ elim (Bool-cases (ltb_ℤ (pos 0) p.quantity)) [
      | inr sold ↦ rw (on, sold) (passed (inr sold) (market_value-Sums account ps mv))
      | inl held ↦
          rw (on, held)
            (held-Sums account p ps mv (market_value prices date (list_positions account ps))
              (mark_price prices p.symbol date) (ground (arith, on)) held
              (market_value-Sums account ps) (mark_price-Marked p.symbol))
    ]
  ]

  pub nav_point-Values : (db : Db F) (a : Account F) → Values db a (nav_point prices date db a)
  unfolding nav_point
  nav_point-Values db a = record {
    of_account = refl;
    on_date = refl;
    cash = refl;
    holdings = market_value-Sums a.id db.positions (fl.lit 0 0);
    nav = refl;
    bench = mark_price-Marked benchmark;
  }
