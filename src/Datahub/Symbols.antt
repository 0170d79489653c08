-- ===== src/Datahub/Symbols.antt =====
-- packages/datahub/src/signal_datahub/symbols.py: the forms of a stock code. A ValueError is `none`;
-- `\d` is a digit of ASCII.
use signal_lab.Common.{
  ℕ, ◌==◌, Bool, true, false, ◌&&◌, ◌||◌, any, Option, none, some, [], ◌∷◌, ◌++◌, if◌then◌else◌,
}
use signal_lab.Common.Text.{Text, codes, text_eq, is_digit, strip, upper, lower}

pub data Exchange : Type 0 where
  sh sz bj : Exchange

-- The letters of an exchange, as in `600519.SH` and in `sh600519`.
abbrev pub upper_text : Exchange → Text
upper_text sh = codes "SH"
upper_text sz = codes "SZ"
upper_text bj = codes "BJ"

abbrev pub lower_text : Exchange → Text
lower_text sh = codes "sh"
lower_text sz = codes "sz"
lower_text bj = codes "bj"

-- `(SH|SZ|BJ)` and `(sh|sz|bj)`
abbrev pub exchange_of : ℕ → ℕ → Option Exchange
exchange_of x y =
    if x == b'S' && y == b'H'
    then some sh
    else if x == b'S' && y == b'Z'
    then some sz
    else if x == b'B' && y == b'J'
    then some bj
    else none

abbrev pub small_exchange_of : ℕ → ℕ → Option Exchange
small_exchange_of x y =
    if x == b's' && y == b'h'
    then some sh
    else if x == b's' && y == b'z'
    then some sz
    else if x == b'b' && y == b'j'
    then some bj
    else none

-- `$`: the end, or a newline that ends the text.
abbrev pub is_end : Text → Bool
is_end [] = true
is_end (c ∷ []) = c == 10
is_end (c ∷ d ∷ s) = false

abbrev pub six_digits : ℕ → ℕ → ℕ → ℕ → ℕ → ℕ → Bool
six_digits a b c d e f =
    is_digit a && is_digit b && is_digit c && is_digit d && is_digit e && is_digit f

abbrev pub when : {A : Type 0} → Bool → Option A → Option A
when true m = m
when false m = none

abbrev pub pair_with : {A B : Type 0} → A → Option B → Option (A × B)
pair_with a none = none
pair_with a (some b) = some (a, b)

-- `_FULL_RE`: the groups of a match.
unfoldable pub full_match : Text → Option (Text × Exchange)
full_match (a ∷ b ∷ c ∷ d ∷ e ∷ f ∷ dot ∷ x ∷ y ∷ rest) =
    when (six_digits a b c d e f && dot == b'.' && is_end rest)
      (pair_with (a ∷ b ∷ c ∷ d ∷ e ∷ f ∷ []) (exchange_of x y))
full_match _ = none

-- `^(SH|SZ|BJ)(\d{6})$`
unfoldable pub prefix_match : Text → Option (Text × Exchange)
prefix_match (x ∷ y ∷ a ∷ b ∷ c ∷ d ∷ e ∷ f ∷ rest) =
    when (six_digits a b c d e f && is_end rest)
      (pair_with (a ∷ b ∷ c ∷ d ∷ e ∷ f ∷ []) (exchange_of x y))
prefix_match _ = none

-- `^(sh|sz|bj)(\d{6})$`
unfoldable pub small_match : Text → Option (Text × Exchange)
small_match (x ∷ y ∷ a ∷ b ∷ c ∷ d ∷ e ∷ f ∷ rest) =
    when (six_digits a b c d e f && is_end rest)
      (pair_with (a ∷ b ∷ c ∷ d ∷ e ∷ f ∷ []) (small_exchange_of x y))
small_match _ = none

-- `_CODE_RE`, of a text without blanks at its ends
unfoldable pub is_code : Text → Bool
is_code (a ∷ b ∷ c ∷ d ∷ e ∷ f ∷ rest) = six_digits a b c d e f && is_end rest
is_code _ = false

-- The first character.
abbrev pub head_of : Text → ℕ
head_of [] = 0
head_of (c ∷ s) = c

-- `_INDEX_EXCHANGE`
unfoldable pub index_exchange : Text → Option Exchange
index_exchange code =
    if any (text_eq code) (codes "000016" ∷ codes "000300" ∷ codes "000905" ∷ codes "000852" ∷ [])
    then some sh
    else if any (text_eq code) (codes "399001" ∷ codes "399006" ∷ [])
    then some sz
    else none

-- `_infer_exchange`
unfoldable pub infer_exchange : Text → Option Exchange
unfolding index_exchange
infer_exchange code = elim (index_exchange code) [
  | some ex ↦ some ex
  | none ↦
      let c = head_of code in
      if c == b'6'
      then some sh
      else if c == b'0' || c == b'3'
      then some sz
      else if c == b'4' || c == b'8' || c == b'9'
      then some bj
      else none
]

abbrev pub or_else : {A : Type 0} → Option A → Option A → Option A
or_else none n = n
or_else (some a) n = some a

abbrev pub bare_match : Text → Option (Text × Exchange)
bare_match s = if is_code s then pair_with s (infer_exchange s) else none

-- The code and the exchange of a text in any of the three forms.
unfoldable pub parse_symbol : Text → Option (Text × Exchange)
unfolding is_code infer_exchange
parse_symbol s = or_else (full_match s) (or_else (prefix_match s) (bare_match s))

abbrev pub symbol_text : Option (Text × Exchange) → Option Text
symbol_text none = none
symbol_text (some (code, ex)) = some (code ++ b'.' ∷ upper_text ex)

unfoldable pub normalize_symbol : Text → Option Text
unfolding parse_symbol
normalize_symbol raw = symbol_text (parse_symbol (upper (strip raw)))

-- INDEX_SYMBOLS
unfoldable pub is_index_symbol : Text → Bool
is_index_symbol symbol = elim (normalize_symbol symbol) [
  | none ↦ false
  | some s ↦ any (text_eq s) (
      codes "000016.SH"
      ∷ codes "000300.SH"
      ∷ codes "000905.SH"
      ∷ codes "000852.SH"
      ∷ codes "399001.SZ"
      ∷ codes "399006.SZ"
      ∷ [])
]

unfoldable pub bare_code : Text → Option Text
bare_code symbol = elim (full_match symbol) [ none ↦ none | some (code, ex) ↦ some code ]

abbrev pub qlib_text : Option (Text × Exchange) → Option Text
qlib_text none = none
qlib_text (some (code, ex)) = some (lower_text ex ++ code)

-- A normal symbol always matches.
unfoldable pub to_qlib_code : Text → Option Text
to_qlib_code symbol = elim (normalize_symbol symbol) [
  | none ↦ none
  | some s ↦ qlib_text (full_match s)
]

unfoldable pub from_qlib_code : Text → Option Text
from_qlib_code code = symbol_text (small_match (lower (strip code)))
