-- ===== src/Contracts/Package.antt =====
-- packages/contracts/src/signal_contracts/strategy_package.py: the manifest of a strategy package,
-- and what its validators refuse. Texts that nothing reads are left out.
use signal_lab.Common.{
  ℕ, Bool, true, not, ◌&&◌, ◌||◌, leb, Option, none, some, is_some, List, [], ◌∷◌, if◌then◌else◌,
  length,
}
use signal_lab.Common.Text.{Text}
use signal_lab.Common.Float.{Floats}

pub data SignalProtocol : Type 0 where
  qlib_expression python_module : SignalProtocol

pub record MetricsSummary (F : Type 0) : Type 0 where
  pub ic : F
  pub icir : Option F
  pub arr : F
  pub mdd : F
  pub turnover : Option F

pub record FactorSpec : Type 0 where
  pub name : Text
  pub expression : Option Text
  pub code_file : Option Text

pub record Manifest (F : Type 0) : Type 0 where
  pub package_id : ℕ
  pub producer : Text
  pub data_snapshot : Text
  pub universe : Text
  pub metrics_summary : MetricsSummary F
  pub signal_protocol : SignalProtocol
  pub factors : List FactorSpec

-- A name of 1 to 64 characters, and exactly one of the two implementations.
unfoldable pub is_factor : FactorSpec → Bool
is_factor f =
    leb 1 (length f.name)
    && leb (length f.name) 64
    && (is_some f.expression && not (is_some f.code_file)
        || not (is_some f.expression) && is_some f.code_file)

unfoldable pub are_factors : List FactorSpec → Bool
unfolding is_factor
are_factors [] = true
are_factors (f ∷ fs) = is_factor f && are_factors fs

unfoldable pub make_manifest : {F : Type 0} → ⦃fl : Floats F⦄ → Manifest F → Option (Manifest F)
unfolding are_factors
make_manifest ⦃fl = fl⦄ m =
    if fl.le m.metrics_summary.mdd (fl.lit 0 0) && leb 1 (length m.factors) && are_factors m.factors
    then some m
    else none
