-- ===== src/Tracker/Extract.antt =====
-- packages/tracker/src/signal_tracker/extract.py, `rule_extract`: recommendations by keywords. The
-- extractor of a language model is what a message comes with (Tracker/Service).
use signal_lab.Common.{
  ℕ, ◌+◌, ◌*◌, ◌-◌, ◌==◌, Bool, ◌||◌, any, Option, none, some, List, [], ◌∷◌, suc, take, not, ◌&&◌,
  if◌then◌else◌,
}
use signal_lab.Common.Float.{Floats}
use signal_lab.Common.Text.{Text, codes, starts_with, remove_prefix, is_digit, is_space}
use signal_lab.Tracker.Models.{
  Action, buy, sell, watch, Confidence, explicit, mention, short, ExtractedRec,
}

-- `p in s`
unfoldable pub contains : Text → Text → Bool
contains p [] = starts_with [] p
contains p (c ∷ s) = starts_with (c ∷ s) p || contains p s

-- A search for one of several words.
abbrev pub mentions : Text → List Text → Bool
mentions s words = any (λ w. contains w s) words

-- `_KNOWN`
abbrev pub known : List (Text × Text)
known =
    (codes "茅台", codes "贵州茅台")
    ∷ (codes "五粮液", codes "五粮液")
    ∷ (codes "宁德时代", codes "宁德时代")
    ∷ (codes "比亚迪", codes "比亚迪")
    ∷ (codes "招商银行", codes "招商银行")
    ∷ (codes "平安银行", codes "平安银行")
    ∷ (codes "中国平安", codes "中国平安")
    ∷ (codes "隆基", codes "隆基绿能")
    ∷ (codes "中芯国际", codes "中芯国际")
    ∷ []

-- `_BUY` and `_SELL`
abbrev pub buy_words : List Text
buy_words =
    codes "买入"
    ∷ codes "建仓"
    ∷ codes "加仓"
    ∷ codes "逢低吸纳"
    ∷ codes "重点关注"
    ∷ codes "强烈推荐"
    ∷ codes "建议关注"
    ∷ []

abbrev pub sell_words : List Text
sell_words = codes "卖出" ∷ codes "减仓" ∷ codes "止盈" ∷ codes "清仓" ∷ []

-- `[：:\s]*`
unfoldable pub skip_colons : Text → Text
skip_colons [] = []
skip_colons (c ∷ s) = if c == 65306 || c == b':' || is_space c then skip_colons s else c ∷ s

-- The value of the digits at the front, and how many there are.
unfoldable pub digits_at : ℕ → ℕ → Text → (ℕ × ℕ) × Text
digits_at n count [] = ((n, count), [])
digits_at n count (c ∷ s) =
    let more = digits_at (n * 10 + (c - b'0')) (suc count) s in
    if is_digit c then more else ((n, count), c ∷ s)

-- `[价位]?`
abbrev pub skip_unit : Text → Text
skip_unit [] = []
skip_unit (c ∷ s) = if c == 20215 || c == 20301 then s else c ∷ s

abbrev pub first_of {ℓ} : {A : Type ℓ} → Option A → Option A → Option A
first_of none b = b
first_of (some a) b = some a

abbrev pub action_of : Text → Action
action_of text =
    if mentions text sell_words then sell else if mentions text buy_words then buy else watch

abbrev pub confidence_of : Text → Confidence
confidence_of text =
    if mentions text sell_words || mentions text buy_words then explicit else mention

module _ {F : Type 0} ⦃fl : Floats F⦄ where
  -- `(?:\.\d+)?` after the digits of `n`
  abbrev pub fraction_at : ℕ → Text → F
  fraction_at n [] = fl.lit n 0
  fraction_at n (c ∷ s) =
      let ((m, count), rest) = digits_at n 0 s in
      if c == b'.' && not (count == 0) then fl.lit m count else fl.lit n 0

  -- `(\d+(?:\.\d+)?)`, as a float
  unfoldable pub number_at : Text → Option F
  unfolding digits_at
  number_at s =
      let ((n, count), rest) = digits_at 0 0 s in
      if count == 0 then none else some (fraction_at n rest)

  -- A match of the first characters, then what may follow, then the number.
  abbrev pub match_at : Text → (Text → Text) → Text → Option F
  match_at start skip s =
      if starts_with s start then number_at (skip_colons (skip (remove_prefix start s))) else none

  -- `re.search(...)`, and the group of its match.
  unfoldable pub search_number : Text → (Text → Text) → Text → Option F
  unfolding number_at skip_colons
  search_number start skip [] = none
  search_number start skip (c ∷ s) =
      first_of (match_at start skip (c ∷ s)) (search_number start skip s)

  -- `_TARGET` and `_STOP`
  abbrev pub target_of : Text → Option F
  target_of s = search_number (codes "目标") skip_unit s

  abbrev pub stop_of : Text → Option F
  stop_of s = search_number (codes "止损") (λ t. t) s

  abbrev pub recommend : Text → Text → ExtractedRec F
  recommend text name = record {
    symbol_name = name;
    action = action_of text;
    confidence = confidence_of text;
    target_price = target_of text;
    stop_loss = stop_of text;
    horizon = short;
    reason = take 120 text;
  }

  unfoldable pub extract_known : Text → List (Text × Text) → List (ExtractedRec F)
  unfolding search_number contains
  extract_known text [] = []
  extract_known text ((alias, name) ∷ names) =
      let rest = extract_known text names in
      if contains alias text || contains name text then recommend text name ∷ rest else rest

  unfoldable pub rule_extract : Text → List (ExtractedRec F)
  unfolding extract_known
  rule_extract text = extract_known text known
