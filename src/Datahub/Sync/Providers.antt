-- ===== src/Datahub/Sync/Providers.antt =====
-- The providers of market data, and `_try_each` (signal_datahub/sync.py).
use signal_lab.Common.{ℕ, List, [], ◌∷◌, Result, ok, err}
use signal_lab.Common.Text.{Text, codes}
use signal_lab.Datahub.Repo.{Quote}

-- A ProviderError, or another exception.
pub data Fault : Type 0 where
  provider_error other : Text → Fault

abbrev pub text_of : Fault → Text
text_of (provider_error e) = e
text_of (other e) = e

pub record Provider (F : Type 0) : Type 0 where
  pub name : Text
  pub fetch_instruments : Result Fault (List (Text × Text × Text))
  pub fetch_index_constituents : Text → Result Fault (List Text)
  pub fetch_daily_bars : Text → ℕ → ℕ → Result Fault (List (Quote F))

abbrev pub benchmark : Text
benchmark = codes "000300.SH"

module _ {F A : Type 0} (fetch : Provider F → Result Fault A) where
  abbrev pub next_on :
      Text → Result Fault A → (Text → Result Fault (A × Text)) → Result Fault (A × Text)
  next_on name (ok a) rest = ok (a, name)
  next_on name (err (provider_error e)) rest = rest e
  next_on name (err (other e)) rest = err (other e)

  -- The loop, with the last error.
  unfoldable pub try_from : List (Provider F) → Text → Result Fault (A × Text)
  try_from [] last_err = err (provider_error last_err)
  try_from (p ∷ ps) last_err = next_on p.name (fetch p) (λ e. try_from ps e)

  unfoldable pub try_each : List (Provider F) → Result Fault (A × Text)
  unfolding try_from
  try_each ps = try_from ps (codes "all providers failed")
