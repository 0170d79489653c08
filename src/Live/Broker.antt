-- ===== src/Live/Broker.antt =====
-- packages/live/src/signal_live/broker.py, the port and the stub: what `LiveService` asks of a
-- broker. A broker keeps a state of its own, of type `B`, and `submit_order` may raise.
use signal_lab.Common.{Option, none, some, ◌||◌, if◌then◌else◌}
use signal_lab.Common.{ok, Exec}
use signal_lab.Common.Int.{ℤ}
use signal_lab.Common.Text.{Text, codes, text_eq, strip, lower, or_default}

pub data BrokerStatus : Type 0 where
  submitted rejected : BrokerStatus

pub record BrokerSubmitResult : Type 0 where
  pub broker_order_id : Text
  pub status : BrokerStatus
  pub message : Text

-- The keyword arguments of `submit_order`.
pub record BrokerOrder (F : Type 0) : Type 0 where
  pub symbol : Text
  pub side : Text
  pub quantity : ℤ
  pub limit_price : Option F

-- An exception is known by its `str(e)`.
pub record BrokerPort (F B : Type 0) : Type 0 where
  pub name : Text
  pub submit_order : BrokerOrder F → Exec B Text BrokerSubmitResult

-- `StubBroker`: its state is the next uuid, as text.
unfoldable pub stub_broker : {F : Type 0} → (Text → Text) → BrokerPort F Text
stub_broker next = record {
  name = codes "stub";
  submit_order = λ o u.
      (ok (record { broker_order_id = u; status = submitted; message = codes "stub ok" }), next u);
}

pub data BrokerKind : Type 0 where
  stub miniqmt : BrokerKind

-- `build_broker`, up to the constructor that it calls; `none` is its ValueError.
unfoldable pub build_broker : Text → Option BrokerKind
build_broker kind =
    let k = lower (strip (or_default kind (codes "stub"))) in
    if text_eq k (codes "stub") || (text_eq k (codes "fake") || text_eq k (codes "mock"))
    then some stub
    else if text_eq k (codes "miniqmt") || (text_eq k (codes "qmt") || text_eq k (codes "xtquant"))
    then some miniqmt
    else none
