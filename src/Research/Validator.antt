-- ===== src/Research/Validator.antt =====
-- packages/research/src/signal_research/validator.py: the checks of a strategy package, and the
-- signals of a day. The archive and the statistics of pandas are parameters.
use signal_lab.Common.{
  ℕ, Bool, true, false, not, ◌&&◌, ◌||◌, ltb, any, Option, none, some, List, [], ◌∷◌, if◌then◌else◌,
  length, take, Result, ok, err,
}
use mathlib.Core.List.{reverse}
use signal_lab.Common.Int.{pos}
use signal_lab.Common.Text.{Text}
use signal_lab.Common.Float.{Floats}
use signal_lab.Contracts.Package.{
  Manifest, FactorSpec, SignalProtocol, python_module, qlib_expression, make_manifest,
}
use signal_lab.Research.Models.{VerifiedMetrics}
use signal_lab.Research.Ports.{Bar, Decoders}
use signal_lab.Research.Expr.{EvalError, expr_error, raised}

pub data PackageError : Type 0 where
  -- what zipfile or json raise
  bad_archive : Text → PackageError
  -- PackageValidationError
  no_manifest bad_manifest disabled_protocol no_expression : PackageError

-- `not f.expression`
abbrev lacks_expression : FactorSpec → Bool
lacks_expression f = elim f.expression [ none ↦ true | some [] ↦ true | some (c ∷ s) ↦ false ]

abbrev is_python : SignalProtocol → Bool
is_python python_module = true
is_python qlib_expression = false

abbrev and_some : {A B : Type 0} → Option A → (A → Option B) → Option B
and_some none f = none
and_some (some a) f = f a

module _ {F : Type 0} ⦃fl : Floats F⦄ where
  -- The checks on a manifest that pydantic has accepted.
  unfoldable pub check_manifest : Option (Manifest F) → Result PackageError (Manifest F)
  check_manifest none = err bad_manifest
  check_manifest (some m) =
      if is_python m.signal_protocol
      then err disabled_protocol
      else if any lacks_expression m.factors
      then err no_expression
      else ok m

  -- `load_package` of the bytes of an archive; the manifest is all that it keeps.
  unfoldable pub load_package :
      {J : Type 0} → Decoders F J → Text → Result PackageError (Manifest F)
  unfolding check_manifest make_manifest
  load_package d data_ = elim (d.read_manifest data_) [
    | err e ↦ err (bad_archive e)
    | ok none ↦ err no_manifest
    | ok (some j) ↦ check_manifest (and_some (d.manifest_of_json j) make_manifest)
  ]

  -- `factors[0].expression or ""`
  abbrev pub expression_of : Manifest F → Text
  expression_of m = elim m.factors [
    | [] ↦ []
    | f ∷ fs ↦ elim f.expression [ none ↦ [] | some e ↦ e ]
  ]

-- The parts of `independent_verify` and of `generate_signals_for_date` that are pandas: the value of
-- an expression on the bars of a symbol, what is left of it.
pub record Statistics (F : Type 0) : Type 0 where
  -- The rank correlation of the factor and the next day's return, with `none` where there are
  -- too few rows or no correlation.
  pub sample_ic : Text → List (Bar F) → Result EvalError (Option F)
  -- The last value, with `none` for NaN or no value at all.
  pub last_value : Text → List (Bar F) → Result EvalError (Option F)
  -- Whether the expression can be evaluated on thirty made-up bars.
  pub check_syntax : Text → Result EvalError Unit
  -- `round(x, 6)`
  pub round6 : F → F

pub data VerifyError : Type 0 where
  bad_expression no_valid_ic below_minimum wrong_sign : VerifyError
  raised_in_verify : Text → VerifyError

abbrev verify_error : EvalError → VerifyError
verify_error expr_error = bad_expression
verify_error (raised e) = raised_in_verify e

module _ {F : Type 0} ⦃fl : Floats F⦄ (stats : Statistics F) where
  -- The list `ics`, over the symbols with at least ten bars.
  unfoldable pub sample_ics : Text → List (Text × List (Bar F)) → Result VerifyError (List F)
  sample_ics e [] = ok []
  sample_ics e ((symbol, bars) ∷ rest) =
      let others = sample_ics e rest in
      if ltb (length bars) 10 then others else elim (stats.sample_ic e bars) [
        | err x ↦ err (verify_error x)
        | ok none ↦ others
        | ok (some ic) ↦ elim others [ err x ↦ err x | ok ics ↦ ok (ic ∷ ics) ]
      ]

  abbrev sum : F → List F → F
  sum acc [] = acc
  sum acc (x ∷ xs) = sum (fl.add acc x) xs

  abbrev absolute : F → F
  absolute x = if fl.lt x (fl.lit 0 0) then fl.sub (fl.lit 0 0) x else x

  abbrev pub same_sign : F → F → Bool
  same_sign a b =
      (fl.le (fl.lit 0 0) a && fl.le (fl.lit 0 0) b)
      || (fl.lt a (fl.lit 0 0) && fl.lt b (fl.lit 0 0))

  -- The decision on the sample; the minimum is -1.
  unfoldable pub judge : F → List F → Result VerifyError (VerifiedMetrics F)
  judge claimed [] = err no_valid_ic
  judge claimed (ic ∷ ics) =
      let n = length (ic ∷ ics) in
      let mean = fl.div (sum (fl.lit 0 0) (ic ∷ ics)) (fl.of_int (pos n)) in
      if fl.lt mean (fl.sub (fl.lit 0 0) (fl.lit 1 0))
      then err below_minimum
      else if fl.lt (fl.lit 1 2) (absolute claimed) && not (same_sign mean claimed)
      then err wrong_sign
      else ok (record {
        sample_ic = some (stats.round6 mean);
        sample_n_symbols = n;
        claimed_ic = claimed;
      })

  unfoldable pub independent_verify :
      Manifest F → List (Text × List (Bar F)) → Result VerifyError (VerifiedMetrics F)
  unfolding judge
  independent_verify m [] = elim (stats.check_syntax (expression_of m)) [
    | err x ↦ err (verify_error x)
    | ok u ↦
        ok (record { sample_ic = none; sample_n_symbols = 0; claimed_ic = m.metrics_summary.ic })
  ]
  independent_verify m (b ∷ bars) = elim (sample_ics (expression_of m) (b ∷ bars)) [
    | err x ↦ err x
    | ok ics ↦ judge m.metrics_summary.ic ics
  ]

-- `seq[-n:]`
abbrev pub take_last : {A : Type 0} → ℕ → List A → List A
take_last n xs = reverse (take n (reverse xs))
