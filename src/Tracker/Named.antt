-- ===== src/Tracker/Named.antt =====
-- What a name resolves to (signal_tracker/resolve.py).
use signal_lab.Common.{
  ◌≡◌, refl, ap, ◌∙◌, inl, inr, ◌⊎◌, Bool, true, false, ◌||◌, Bool-cases, arith, any, none, some,
  List, [], ◌∷◌, All, All-map,
}
use mathlib.Core.Path.{subst}
use signal_lab.Common.Text.{Text, text_eq, text_eq_iff, text_eq_refl}
use signal_lab.Common.TextSet.{is_in, text_eq_sym}
use signal_lab.Tracker.Resolve.{
  Item, NameIndex, ResolveResult, resolved, ambiguous, unresolved, hits_of, one_per_symbol,
  result_of, resolve_name,
}

abbrev pub has_symbol : Text → List Item → Bool
has_symbol s hits = any (λ h. text_eq s h.0) hits

is_in_eq : (s t : Text) (seen : List Text) → text_eq s t ≡ true → is_in s seen ≡ is_in t seen
is_in_eq s t seen h = ap (λ x. is_in x seen) ((text_eq_iff s t).0 h)

-- Every symbol stays, unless it was seen before.
has_symbol-one_per_symbol :
    (s : Text) (seen : List Text) (hits : List Item)
    → has_symbol s hits ≡ true
    → is_in s seen || has_symbol s (one_per_symbol seen hits) ≡ true
unfolding any one_per_symbol
has_symbol-one_per_symbol s seen [] h = ground (arith, h)
has_symbol-one_per_symbol s seen (item ∷ hits) h = elim (Bool-cases (is_in item.0 seen)) [
  | inl old ↦
      rw old (ground (arith, is_in_eq s item.0 seen, has_symbol-one_per_symbol s seen hits, h, old))
  | inr new ↦ rw new (ground (arith, has_symbol-one_per_symbol s (item.0 ∷ seen) hits, h))
]

-- The items that stay are hits of symbols that were not seen before.
one_per_symbol-All :
    (P : Item → Type 0) (seen : List Text) (hits : List Item)
    → All P hits
    → All P (one_per_symbol seen hits)
unfolding one_per_symbol
one_per_symbol-All P seen [] h = tt
one_per_symbol-All P seen (item ∷ hits) h = elim (Bool-cases (is_in item.0 seen)) [
  | inl old ↦ rw old (one_per_symbol-All P seen hits h.1)
  | inr new ↦ rw new (h.0, one_per_symbol-All P (item.0 ∷ seen) hits h.1)
]

one_per_symbol_new :
    (seen : List Text) (hits : List Item)
    → All (λ h. is_in h.0 seen ≡ false) (one_per_symbol seen hits)
unfolding one_per_symbol any
one_per_symbol_new seen [] = tt
one_per_symbol_new seen (item ∷ hits) = elim (Bool-cases (is_in item.0 seen)) [
  | inl old ↦ rw old (one_per_symbol_new seen hits)
  | inr new ↦ rw new (
    new,
    All-map {Q = λ (h : Item). is_in h.0 seen ≡ false} (one_per_symbol (item.0 ∷ seen) hits)
        (λ h k. ground (arith, k)) (one_per_symbol_new (item.0 ∷ seen) hits),
  )
]

own_symbols : (hits : List Item) → All (λ h. has_symbol h.0 hits ≡ true) hits
unfolding any
own_symbols [] = tt
own_symbols (item ∷ hits) = (
  rw (text_eq_refl item.0) refl,
  All-map {Q = λ (h : Item). has_symbol h.0 (item ∷ hits) ≡ true} hits (λ h k. ground (arith, k))
      (own_symbols hits),
)

-- What a result says of the hits that it was made from.
abbrev pub Says : List Item → ResolveResult → Type 0
Says hits r =
    ((s : Text) × (r.symbol ≡ some s)
      × (r.status ≡ resolved)
      × (has_symbol s hits ≡ true)
      × All (λ h. h.0 ≡ s) hits)
    ⊎ ((s : Text) × (t : Text) × (r.symbol ≡ none)
        × (r.status ≡ ambiguous)
        × (text_eq s t ≡ false)
        × (has_symbol s hits ≡ true)
        × (has_symbol t hits ≡ true))
    ⊎ ((r.symbol ≡ none) × (r.status ≡ unresolved) × (hits ≡ []))

none_left : (hits : List Item) → one_per_symbol [] hits ≡ [] → hits ≡ []
unfolding one_per_symbol any
none_left [] h = refl
none_left (item ∷ hits) h = ground (arith, h)

one_left :
    (item : Item) (hits : List Item)
    → one_per_symbol [] hits ≡ item ∷ []
    → All (λ h. h.0 ≡ item.0) hits
unfolding any
one_left item hits e =
    All-map {P = λ (h : Item). has_symbol h.0 hits ≡ true} hits
      (λ h k. (text_eq_iff h.0 item.0).0 (
        ground (
          arith,
          subst (λ u. is_in h.0 [] || has_symbol h.0 u ≡ true) e
              (has_symbol-one_per_symbol h.0 [] hits k),
        )))
      (own_symbols hits)

-- No two items of one symbol.
abbrev Apart : List Item → Type 0
Apart [] = Unit
Apart (item ∷ items) = All (λ h. text_eq h.0 item.0 ≡ false) items × Apart items

one_per_symbol-Apart : (seen : List Text) (hits : List Item) → Apart (one_per_symbol seen hits)
unfolding one_per_symbol any
one_per_symbol-Apart seen [] = tt
one_per_symbol-Apart seen (item ∷ hits) = elim (Bool-cases (is_in item.0 seen)) [
  | inl old ↦ rw old (one_per_symbol-Apart seen hits)
  | inr new ↦ rw new (
    All-map {Q = λ (h : Item). text_eq h.0 item.0 ≡ false} (one_per_symbol (item.0 ∷ seen) hits)
        (λ h k. ground (arith, k)) (one_per_symbol_new (item.0 ∷ seen) hits),
    one_per_symbol-Apart (item.0 ∷ seen) hits,
  )
]

Says-result_of :
    (hits uniq : List Item) → one_per_symbol [] hits ≡ uniq → Says hits (result_of uniq)
Says-result_of hits [] e = inr (inr (refl, refl, none_left hits e))
Says-result_of hits (item ∷ uniq) e =
    let here =
      subst (All (λ h. has_symbol h.0 hits ≡ true)) e
        (one_per_symbol-All (λ h. has_symbol h.0 hits ≡ true) [] hits (own_symbols hits)) in
    let apart = subst Apart e (one_per_symbol-Apart [] hits) in of_first uniq e here apart
  where
    of_first :
        (uniq : List Item)
        → one_per_symbol [] hits ≡ item ∷ uniq
        → All (λ h. has_symbol h.0 hits ≡ true) (item ∷ uniq)
        → Apart (item ∷ uniq)
        → Says hits (result_of (item ∷ uniq))
    of_first [] e here apart = inl (item.0, refl, refl, here.0, one_left item hits e)
    of_first (other ∷ more) e here apart = inr (
        inl (item.0, other.0, refl, refl, text_eq_sym item.0 other.0 ∙ apart.0.0, here.0, here.1.0))

-- A name is resolved to a symbol exactly where it has hits and all of them are of that symbol; it is
-- ambiguous where two of them have different symbols, and unresolved where it has none.
pub resolve_name-Says :
    (name : Text) (index : NameIndex) → Says (hits_of name index) (resolve_name name index)
unfolding resolve_name
resolve_name-Says name index =
    Says-result_of (hits_of name index) (one_per_symbol [] (hits_of name index)) refl
