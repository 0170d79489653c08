-- ===== src/Paper/Reconcile.antt =====
-- Positions against the filled orders (signal_papertrade/service.py): what an account holds of a
-- symbol is what its filled orders bought less what they sold.
use signal_lab.Common.{ℕ, ◌==◌, ◌≡◌, true, some, ◌&&◌, arith, if◌then◌else◌}
use mathlib.Core.Path.{ap₂}
use signal_lab.Common.Int.{ℤ, pos, ◌-ℤ◌, int_laws}
use signal_lab.Common.Text.{Text, text_eq, text_eq_iff}
use signal_lab.Common.Float.{Floats}
use signal_lab.Paper.Models.{Account, Order, pending, filled, rejected, Reason, Db}
use signal_lab.Paper.Engine.{Fill, is_buy}
use signal_lab.Paper.Repo.{get_order, get_position}
use signal_lab.Paper.Service.{quantity_of, quantity_after, filled_order, reject_order, fill_order}
use signal_lab.Paper.Table.{total, total-flush, quantity-upsert}

module _ {F : Type 0} where
  -- The shares that a filled order added to the holding of `a` in `s`; other orders add none.
  abbrev pub shares : ℕ → Text → Order F → ℤ
  shares a s o = elim o.status [
    | filled ↦
        if (o.account_id == a) && text_eq o.symbol s
        then (if is_buy o.side then o.quantity else pos 0 -ℤ o.quantity)
        else pos 0
    | _ ↦ pos 0
  ]

  abbrev pub held : ℕ → Text → Db F → ℤ
  held a s db = quantity_of (get_position a s db.positions)

  pub record IsReconciled (db : Db F) : Type 0 where
    pub at : (a : ℕ) (s : Text) → held a s db ≡ total (shares a s) db.orders

  -- A pending order of the table, as the matching loop finds it.
  abbrev pub IsOpen : Db F → Order F → Type 0
  IsOpen db o = (get_order o.id db.orders ≡ some o) × (o.status ≡ pending)

  pub reject_order-IsReconciled :
      (why : Reason) (o : Order F) (db : Db F)
      → IsReconciled db
      → IsOpen db o
      → IsReconciled (reject_order why o db)
  unfolding reject_order
  reject_order-IsReconciled why o db h (found, waits) = record {
    at = λ a s.
        let o' : Order F = record o { status = rejected; reject_reason = some why } in
        let t = total-flush (shares a s) o' o db.orders found in grind (int_laws, t, h.at a s);
  }

module _ {F : Type 0} ⦃fl : Floats F⦄ where
  -- Where the key of the order is the key asked for, both holdings are one.
  abbrev SameHolding : Order F → ℕ → Text → Db F → Type 0
  SameHolding o b s db =
      (o.account_id == b) && text_eq o.symbol s ≡ true → held o.account_id o.symbol db ≡ held b s db

  same_holding : (o : Order F) (b : ℕ) (s : Text) (db : Db F) → SameHolding o b s db
  same_holding o b s db e =
      let a_b : o.account_id ≡ b = ground arith in
      let t : text_eq o.symbol s ≡ true = ground arith in
      ap₂ (λ x y. held x y db) a_b ((text_eq_iff o.symbol s).0 t)

  pub fill_order-IsReconciled :
      (date : ℕ) (o : Order F) (a : Account F) (f : Fill F) (db : Db F)
      → IsReconciled db
      → IsOpen db o
      → IsReconciled (fill_order date o a f db)
  unfolding fill_order quantity_after
  fill_order-IsReconciled date o a f db h (found, waits) = record {
    at = λ b s.
        let t = total-flush (shares b s) (filled_order date f o) o db.orders found in
        let k = same_holding o b s db in rw quantity-upsert (grind (int_laws, t, h.at b s, k));
  }
