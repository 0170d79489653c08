-- ===== src/Research/Expr.antt =====
-- packages/research/src/signal_research/expr.py: the interpreter of factor expressions. The syntax
-- tree of Python's `ast` enters as a `Node`; a node of any other kind, or with an operator that the
-- tables do not list, is `other`. The series of pandas are the parameter `Pandas`.
use signal_lab.Common.{
  ℕ, Bool, any, Option, none, some, List, [], ◌∷◌, if◌then◌else◌, length, Result, ok, err,
}
use signal_lab.Common.Int.{ℤ}
use signal_lab.Common.Text.{Text, codes, text_eq, lower}
use signal_lab.Common.Float.{Floats}
use signal_lab.Research.Ports.{Bar}

pub data BinOp : Type 0 where
  add sub mult div pow : BinOp

pub data UnaryOp : Type 0 where
  uadd usub : UnaryOp

mutual
  pub data Node (F : Type 0) : Type 0 where
    constant : F → Node F
    name : Text → Node F
    bin : BinOp → Node F → Node F → Node F
    unary : UnaryOp → Node F → Node F
    call : Text → Nodes F → Node F
    other : Node F

  pub data Nodes (F : Type 0) : Type 0 where
    no_args : Nodes F
    arg : Node F → Nodes F → Nodes F

-- The value of a node: a number or a series.
pub data Value (F S : Type 0) : Type 0 where
  number : F → Value F S
  series : S → Value F S

-- What the code calls of pandas, of `math` and of the operators; an exception is its text.
pub record Pandas (F S : Type 0) : Type 0 where
  pub size : S → ℕ
  -- `pd.Series(bars[name], dtype=float)`, or `none` where the frame has no such column
  pub column : List (Bar F) → Text → Option S
  -- `pd.Series(x, dtype=float)` and `pd.Series([x] * n)`
  pub one : F → S
  pub repeated : F → ℕ → S
  pub binop : BinOp → Value F S → Value F S → Result Text (Value F S)
  pub unop : UnaryOp → Value F S → Value F S
  pub to_int : Value F S → Result Text ℤ
  pub shift : S → ℤ → S
  pub rolling_mean : S → ℤ → Result Text S
  pub rolling_std : S → ℤ → Result Text S
  pub rank : S → S
  pub absolute : S → S
  pub map_values : (F → F) → S → S
  pub nan : F
  pub log : F → F

pub data EvalError : Type 0 where
  expr_error : EvalError
  raised : Text → EvalError

pub data Fun : Type 0 where
  ref mean std rank_of abs_of log_of sign_of : Fun

-- `aliases.get(name.lower(), …)`: a name that is no alias in any case is unknown.
unfoldable pub fun_of : Text → Option Fun
fun_of function =
    let n = lower function in
    if text_eq n (codes "ref")
    then some ref
    else if text_eq n (codes "mean")
    then some mean
    else if text_eq n (codes "std")
    then some std
    else if text_eq n (codes "rank")
    then some rank_of
    else if text_eq n (codes "abs")
    then some abs_of
    else if text_eq n (codes "log")
    then some log_of
    else if text_eq n (codes "sign")
    then some sign_of
    else none

-- _ALLOWED_FIELDS
unfoldable pub is_allowed : Text → Bool
is_allowed n = any (text_eq n) (
    codes "close"
    ∷ codes "open"
    ∷ codes "high"
    ∷ codes "low"
    ∷ codes "volume"
    ∷ codes "amount"
    ∷ [])

module _ {A B : Type 0} where
  abbrev pub and_then : Result EvalError A → (A → Result EvalError B) → Result EvalError B
  and_then (ok a) f = f a
  and_then (err e) f = err e

abbrev pub passed : {A : Type 0} → Result Text A → Result EvalError A
passed (ok a) = ok a
passed (err e) = err (raised e)

module _ {F S : Type 0} ⦃fl : Floats F⦄ (pd : Pandas F S) where
  -- `_series`
  unfoldable pub series_of : List (Bar F) → Text → Result EvalError (Value F S)
  series_of bars n =
      if is_allowed n
      then elim (pd.column bars n) [ none ↦ err expr_error | some s ↦ ok (series s) ]
      else err expr_error

  abbrev pub as_series : Value F S → S
  as_series (number x) = pd.one x
  as_series (series s) = s

  abbrev pub log_value : F → F
  log_value v = if fl.le v (fl.lit 0 0) then pd.nan else pd.log v

  abbrev pub sign_value : F → F
  sign_value v =
      if fl.eq v (fl.lit 0 0)
      then fl.lit 0 0
      else if fl.lt (fl.lit 0 0) v
      then fl.lit 1 0
      else fl.sub (fl.lit 0 0) (fl.lit 1 0)

  -- A function of a series and a number of periods. With too few arguments the code indexes past
  -- their end.
  abbrev windowed : (S → ℤ → Result Text S) → List (Value F S) → Result EvalError (Value F S)
  windowed f (x ∷ n ∷ rest) =
      and_then (passed (pd.to_int n)) λ k. and_then (passed (f (as_series x) k)) λ s. ok (series s)
  windowed f _ = err (raised (codes "IndexError"))

  abbrev pointwise : (S → S) → List (Value F S) → Result EvalError (Value F S)
  pointwise f (x ∷ rest) = ok (series (f (as_series x)))
  pointwise f [] = err (raised (codes "IndexError"))

  -- `_call`
  unfoldable pub apply : Fun → List (Value F S) → Result EvalError (Value F S)
  apply ref (x ∷ n ∷ []) = windowed (λ s k. ok (pd.shift s k)) (x ∷ n ∷ [])
  apply ref _ = err expr_error
  apply mean args = windowed pd.rolling_mean args
  apply std args = windowed pd.rolling_std args
  apply rank_of args = pointwise pd.rank args
  apply abs_of args = pointwise pd.absolute args
  apply log_of args = pointwise (pd.map_values log_value) args
  apply sign_of args = pointwise (pd.map_values sign_value) args

  abbrev apply_known : Option Fun → List (Value F S) → Result EvalError (Value F S)
  apply_known none args = err expr_error
  apply_known (some f) args = apply f args

  module _ (bars : List (Bar F)) where
    unfoldable mutual
      pub eval_node : Node F → Result EvalError (Value F S)
      eval_node (constant x) = ok (number x)
      eval_node (name n) = series_of bars n
      eval_node (bin op l r) =
          and_then (eval_node l) λ x. and_then (eval_node r) λ y. passed (pd.binop op x y)
      eval_node (unary op x) = and_then (eval_node x) λ v. ok (pd.unop op v)
      eval_node (call f args) = and_then (eval_args args) λ vs. apply_known (fun_of f) vs
      eval_node other = err expr_error

      pub eval_args : Nodes F → Result EvalError (List (Value F S))
      eval_args no_args = ok []
      eval_args (arg x xs) = and_then (eval_node x) λ v. and_then (eval_args xs) λ vs. ok (v ∷ vs)

  abbrev aligned : List (Bar F) → Value F S → S
  aligned bars (number x) = pd.repeated x (length bars)
  aligned bars (series s) = s

  -- The tree of the text, without its `$`, is given; `none` is a SyntaxError.
  unfoldable pub eval_expression : Option (Node F) → List (Bar F) → Result EvalError S
  eval_expression tree [] = ok (pd.repeated pd.nan 0)
  eval_expression none (b ∷ bars) = err expr_error
  eval_expression (some n) (b ∷ bars) =
      and_then (eval_node (b ∷ bars) n) λ v. ok (aligned (b ∷ bars) v)
