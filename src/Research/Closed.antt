-- ===== src/Research/Closed.antt =====
-- Every connection to a host is closed (signal_research/provisioners.py).
use signal_lab.Common.{suc, ◌≡◌, ap, ◌+◌, Result, ok, err}
use signal_lab.Common.Text.{Text}
use signal_lab.Research.Ssh.{Fault, Environ, Hosts, Wire, Remote}
use signal_lab.Research.Remote.{RemoteSettings, closing}
use signal_lab.Research.Steady.{Steady}

-- As many connections were closed as opened.
abbrev pub Balanced : {W A : Type 0} → Remote W A → Wire W → Type 0
Balanced x s = (x s).1.opened + s.closed ≡ (x s).1.closed + s.opened

module _ {W : Type 0} (hosts : Hosts W) where
  closing-Balanced :
      {A : Type 0} {body : Remote W A} (t : Wire W)
      → Steady body
      → ((closing hosts body t).1.opened ≡ t.opened)
        × ((closing hosts body t).1.closed ≡ suc t.closed)
  closing-Balanced t h = (h.opens t, ap suc (h.closes t))

  module _ (st : RemoteSettings) (environ : Environ) where
    -- A failed connection opens nothing, and one that is made is one.
    Opens : Result Fault (Unit {0}) × Wire W → Wire W → Type 0
    Opens (ok u, t) s = (t.opened ≡ suc s.opened) × (t.closed ≡ s.closed)
    Opens (err e, t) s = (t.opened ≡ s.opened) × (t.closed ≡ s.closed)
