-- ===== src/Paper/Rounds.antt =====
-- The ways in which a round of `match_pending` (signal_papertrade/service.py) may change the tables,
-- and the induction over the rounds.
use signal_lab.Common.{
  ◌⊎◌, ℕ, ◌≡◌, refl, true, inl, inr, Option, none, some, Bool-cases, leb, Result, ok, err,
}
use signal_lab.Common.Float.{Floats}
use signal_lab.Paper.Models.{Account, Order, Reason, Db}
use signal_lab.Paper.Engine.{Fill}
use signal_lab.Paper.Repo.{get_account}
use signal_lab.Paper.Ports.{PriceReader}
use signal_lab.Paper.Service.{
  cn_day, reject_order, fill_order, attempt, conclude, match_quoted, match_known, match_one,
}

module _ {F : Type 0} ⦃fl : Floats F⦄ (prices : PriceReader F) (date : ℕ) where
  module _ (o : Order F) (db : Db F) (P : Db F → Type 0) where
    conclude-cases :
        (a : Account F) (r : Result Reason (Fill F))
        → ((why : Reason) → P (reject_order why o db))
        → ((f : Fill F) → r ≡ ok f → P (fill_order date o a f db))
        → P (conclude date o a r db).1
    unfolding conclude
    conclude-cases a (err why) rejects fills = rejects why
    conclude-cases a (ok f) rejects fills = fills f refl

    quoted-cases :
        (a : Account F) (q : Option (F × F))
        → ((why : Reason) → P (reject_order why o db))
        → ((px : F) (f : Fill F)
            → attempt prices date o a px db ≡ ok f
            → P (fill_order date o a f db))
        → P (match_quoted prices date o a q db).1
    unfolding match_quoted
    quoted-cases a none rejects fills = rejects _
    quoted-cases a (some (px, close)) rejects fills =
        conclude-cases a (attempt prices date o a px db) rejects (fills px)

    -- A round leaves the tables alone (the order is too young, or has no account), rejects its order, or fills it at a price at which the
    -- engine accepts it, against the account of the order.
    pub match_one-cases :
        ((leb date (cn_day o.submitted_at) ≡ true) ⊎ (get_account o.account_id db.accounts ≡ none)
          → P db)
        → ((why : Reason) → P (reject_order why o db))
        → ((a : Account F) (px : F) (f : Fill F)
            → get_account o.account_id db.accounts ≡ some a
            → attempt prices date o a px db ≡ ok f
            → P (fill_order date o a f db))
        → P (match_one prices date o db).1
    unfolding match_one
    match_one-cases same rejects fills = elim (Bool-cases (leb date (cn_day o.submitted_at))) [
      | inl early ↦ rw early (same (inl early))
      | inr due ↦ rw due (known (get_account o.account_id db.accounts) refl)
    ]
      where
        known :
            (m : Option (Account F))
            → get_account o.account_id db.accounts ≡ m
            → P (match_known prices date o m db).1
        known none e = unfold match_known in same (inr e)
        known (some a) e = unfold match_known in quoted-cases a _ rejects (λ px f. fills a px f e)
