-- ===== src/Live/Miniqmt/Connection.antt =====
-- The cached connection of `MiniqmtBroker` (signal_live/broker.py).
use mathlib.Core.Path.{subst}
use signal_lab.Common.{
  ℕ, ◌*◌, ◌/◌, ◌<◌, ◌≡◌, refl, true, false, inl, inr, Option, none, some, Bool-cases, arith, Result,
  ok, err, is_some,
}
use signal_lab.Common.Int.{ℤ, pos, negsuc}
use signal_lab.Live.Broker.{BrokerOrder, BrokerSubmitResult}
use signal_lab.Live.Miniqmt.{
  MiniqmtError, order_failed, Xtquant, Miniqmt, open_trader, reconnect, cached_or_new,
  ensure_connected, place, submit_order, is_bad_lot,
}

module _ {F E H A : Type 0} (xt : Xtquant F E H A) where
  -- What a call leaves of the connection, by how it ended.
  abbrev pub Link : {R : Type 0} → Result MiniqmtError R → Miniqmt E H A → Miniqmt E H A → Type 0
  Link (ok r) m m' = (is_some m'.trader ≡ true) × (is_some m'.acc ≡ true)
  Link (err (order_failed e)) m m' = (m'.trader ≡ none) × (m'.acc ≡ none)
  Link (err e) m m' = (m'.trader ≡ m.trader) × (m'.acc ≡ m.acc)

  open_trader-Link :
      (n : ℤ) (m : Miniqmt E H A) → Link (open_trader xt n m).0 m (open_trader xt n m).1
  unfolding open_trader
  open_trader-Link n m = ground arith

  reconnect-Link : (m : Miniqmt E H A) → Link (reconnect xt m).0 m (reconnect xt m).1
  unfolding reconnect
  reconnect-Link m = ground arith

  cached-Link :
      (h : Option H) (a : Option A) (m : Miniqmt E H A)
      → m.trader ≡ h
      → m.acc ≡ a
      → Link (cached_or_new xt h a m).0 m (cached_or_new xt h a m).1
  unfolding cached_or_new
  cached-Link (some h) (some a) m p q = (ground arith, ground arith)
  cached-Link none _ m p q = reconnect-Link m
  cached-Link (some h) none m p q = reconnect-Link m

  ensure_connected-Link :
      (m : Miniqmt E H A) → Link (ensure_connected xt m).0 m (ensure_connected xt m).1
  unfolding ensure_connected
  ensure_connected-Link m = cached-Link m.trader m.acc m refl refl

  place-Link :
      (o : BrokerOrder F) (c : H × A) (m : Miniqmt E H A)
      → is_some m.trader ≡ true
      → is_some m.acc ≡ true
      → Link (place xt o c m).0 m (place xt o c m).1
  unfolding place
  place-Link o (h, a) m p q = ground arith

  -- After `submit_order` the connection is cached if an answer came back, accepted or rejected,
  -- and dropped if the order call itself raised; a call that fails before the order leaves it.
  pub submit_order-Link :
      (o : BrokerOrder F) (m : Miniqmt E H A)
      → Link (submit_order xt o m).0 m (submit_order xt o m).1
  unfolding submit_order
  submit_order-Link o m = ground (arith, ensure_connected-Link m)

  lot_of_ok :
      (o : BrokerOrder F) (m : Miniqmt E H A) (a : BrokerSubmitResult)
      → (submit_order xt o m).0 ≡ ok a
      → is_bad_lot o.quantity ≡ false
  unfolding submit_order
  lot_of_ok o m a h = elim (Bool-cases (is_bad_lot o.quantity)) [
    | inr good ↦ good
    | inl bad ↦ ground arith
  ]

  whole_lots : (q : ℤ) → is_bad_lot q ≡ false → (k : ℕ) × (q ≡ pos (100 * k)) × (0 < k)
  whole_lots (pos n) h = (n / 100, ground arith, ground arith)
  whole_lots (negsuc n) h = absurd (ground arith)

  reuse :
      (h : Option H) (a : Option A) (m : Miniqmt E H A)
      → is_some h ≡ true
      → is_some a ≡ true
      → (c : H × A) × (cached_or_new xt h a m ≡ (ok c, m))
  unfolding cached_or_new
  reuse (some h) (some a) m p q = ((h, a), refl)
  reuse none a m p q = cc
  reuse (some h) none m p q = cc

  -- An order that was answered had a positive quantity of whole lots of 100, and the next call
  -- finds the connection: it neither connects again nor changes the broker.
  pub submit_order_ok :
      (o : BrokerOrder F) (m : Miniqmt E H A) (a : BrokerSubmitResult)
      → (submit_order xt o m).0 ≡ ok a
      → let m' = (submit_order xt o m).1 in
        ((k : ℕ) × (o.quantity ≡ pos (100 * k)) × (0 < k))
        × ((c : H × A) × (ensure_connected xt m' ≡ (ok c, m')))
  unfolding ensure_connected
  submit_order_ok o m a h =
      let m' = (submit_order xt o m).1 in
      let linked : Link (ok a) m m' = subst (λ r. Link r m m') h (submit_order-Link o m) in
      (whole_lots o.quantity (lot_of_ok o m a h), reuse m'.trader m'.acc m' linked.0 linked.1)
