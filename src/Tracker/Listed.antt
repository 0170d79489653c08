-- ===== src/Tracker/Listed.antt =====
-- The names that an index knows (signal_tracker/resolve.py).
use signal_lab.Common.{
  ◌≡◌, ◌≢◌, sym, ap, ◌∙◌, inl, inr, Bool, true, false, ◌||◌, Bool-cases, arith, any, any-append,
  some, List, [], ◌∷◌, All,
}
use mathlib.Core.Path.{subst}
use signal_lab.Common.Text.{Text, text_eq, text_eq_iff, text_eq_refl}
use signal_lab.Tracker.Named.{has_symbol, Says, resolve_name-Says}
use signal_lab.Tracker.Resolve.{
  Item, NameIndex, norm, is_blank, item_eq, bucket_at, put_in, add_at, add_name, name_of,
  add_instruments, add_aliases, build_name_index, ResolveResult, unresolved, or_fuzzy, hits_of,
  resolve_name,
}

-- What an index keeps.
module _ (key : Text) (s : Text) where
  abbrev Keeps : NameIndex → Type 0
  Keeps index = has_symbol s (bucket_at key index) ≡ true

  has_symbol-put_in :
      (item : Item) (bucket : List Item)
      → has_symbol s bucket ≡ true
      → has_symbol s (put_in item bucket) ≡ true
  unfolding any
  has_symbol-put_in item bucket h = elim (Bool-cases (any (item_eq item) bucket)) [
    | inl old ↦ rw old h
    | inr new ↦
        rw new (ground (arith, any-append (λ (h : Item). text_eq s h.0) bucket (item ∷ []), h))
  ]

  Keeps-add_at :
      (k : Text) (item : Item) (index : NameIndex) → Keeps index → Keeps (add_at k item index)
  unfolding bucket_at add_at any
  Keeps-add_at k item [] = λ h. ground (arith, h)
  Keeps-add_at k item ((k', bucket) ∷ index) = elim (Bool-cases (text_eq k' k)) [
    | inl same ↦ rw same (elim (Bool-cases (text_eq k' key)) [
      | inl here ↦ rw here (λ h. has_symbol-put_in item bucket h)
      | inr there ↦ rw there (λ h. h)
    ])
    | inr other ↦ rw other (elim (Bool-cases (text_eq k' key)) [
      | inl here ↦ rw here (λ h. h)
      | inr there ↦ rw there (λ h. Keeps-add_at k item index h)
    ])
  ]

  Keeps-add_name :
      (k : Text) (item : Item) (index : NameIndex) → Keeps index → Keeps (add_name k item index)
  unfolding add_name
  Keeps-add_name k item index h = elim (Bool-cases (is_blank (norm k))) [
    | inl blank ↦ rw blank h
    | inr given ↦ rw given (Keeps-add_at (norm k) item index h)
  ]

  Keeps-add_instruments :
      (instruments : List Item) (index : NameIndex)
      → Keeps index
      → Keeps (add_instruments instruments index)
  unfolding add_instruments
  Keeps-add_instruments [] index h = h
  Keeps-add_instruments ((t, n) ∷ rest) index h =
      Keeps-add_instruments rest (add_name n (t, n) index) (Keeps-add_name n (t, n) index h)

  Keeps-add_aliases :
      (instruments : List Item) (aliases : List (Text × Text)) (index : NameIndex)
      → Keeps index
      → Keeps (add_aliases instruments aliases index)
  unfolding add_aliases
  Keeps-add_aliases instruments [] index h = h
  Keeps-add_aliases instruments ((alias, t) ∷ rest) index h =
      let item : Item = (t, name_of alias t instruments) in
      Keeps-add_aliases instruments rest (add_name alias item index)
        (Keeps-add_name alias item index h)

-- What is added is found.
has_symbol-member :
    (item : Item) (bucket : List Item)
    → any (item_eq item) bucket ≡ true
    → has_symbol item.0 bucket ≡ true
unfolding any
has_symbol-member item [] h = ground (arith, h)
has_symbol-member item (x ∷ bucket) h = ground (arith, h, has_symbol-member item bucket)

put_in_adds : (item : Item) (bucket : List Item) → has_symbol item.0 (put_in item bucket) ≡ true
unfolding any
put_in_adds item bucket = elim (Bool-cases (any (item_eq item) bucket)) [
  | inl old ↦ rw old (has_symbol-member item bucket old)
  | inr new ↦ rw new (
      ground (
        arith,
        any-append (λ (h : Item). text_eq item.0 h.0) bucket (item ∷ []),
        text_eq_refl item.0,
      ))
]

Keeps-added : (k : Text) (item : Item) (index : NameIndex) → Keeps k item.0 (add_at k item index)
unfolding bucket_at add_at any
Keeps-added k item [] = ground (arith, text_eq_refl k, text_eq_refl item.0)
Keeps-added k item ((k', bucket) ∷ index) = elim (Bool-cases (text_eq k' k)) [
  | inl same ↦ rw same (rw same (put_in_adds item bucket))
  | inr other ↦ rw other (rw other (Keeps-added k item index))
]

Keeps-named :
    (k : Text) (item : Item) (index : NameIndex)
    → is_blank (norm k) ≡ false
    → Keeps (norm k) item.0 (add_name k item index)
unfolding add_name
Keeps-named k item index h = rw h (Keeps-added (norm k) item index)

-- A pair in a list of names.
abbrev pub is_listed : Text × Text → List (Text × Text) → Bool
is_listed pair pairs = any (item_eq pair) pairs

Keeps-renamed :
    (k s : Text) (k' : Text) (item : Item) (index : NameIndex)
    → text_eq k k' ≡ true
    → text_eq s item.0 ≡ true
    → is_blank (norm k) ≡ false
    → Keeps (norm k) s (add_name k' item index)
Keeps-renamed k s k' item index same_k same_s given =
    let ek = (text_eq_iff k k').0 same_k in
    let es = (text_eq_iff s item.0).0 same_s in
    subst (λ x. Keeps (norm x) s (add_name k' item index)) (sym ek)
      (subst (λ y. Keeps (norm k') y (add_name k' item index)) (sym es)
        (Keeps-named k' item index (ap (λ x. is_blank (norm x)) (sym ek) ∙ given)))

instrument-Keeps :
    (s n : Text) (instruments : List Item) (index : NameIndex)
    → is_listed (s, n) instruments ≡ true
    → is_blank (norm n) ≡ false
    → Keeps (norm n) s (add_instruments instruments index)
unfolding add_instruments any
instrument-Keeps s n [] index h given = ground (arith, h)
instrument-Keeps s n ((t, m) ∷ rest) index h given = elim (Bool-cases (item_eq (s, n) (t, m))) [
  | inl same ↦
      Keeps-add_instruments (norm n) s rest (add_name m (t, m) index)
        (Keeps-renamed n s m (t, m) index (ground (arith, same)) (ground (arith, same)) given)
  | inr other ↦ instrument-Keeps s n rest (add_name m (t, m) index) (ground (arith, h, other)) given
]

alias-Keeps :
    (alias s : Text) (instruments : List Item) (aliases : List (Text × Text)) (index : NameIndex)
    → is_listed (alias, s) aliases ≡ true
    → is_blank (norm alias) ≡ false
    → Keeps (norm alias) s (add_aliases instruments aliases index)
unfolding add_aliases any
alias-Keeps alias s instruments [] index h given = ground (arith, h)
alias-Keeps alias s instruments ((a, t) ∷ rest) index h given =
    elim (Bool-cases (item_eq (alias, s) (a, t))) [
      | inl same ↦
          Keeps-add_aliases (norm alias) s instruments rest
            (add_name a (t, name_of a t instruments) index)
            (Keeps-renamed alias s a (t, name_of a t instruments) index (ground (arith, same))
              (ground (arith, same)) given)
      | inr other ↦
          alias-Keeps alias s instruments rest (add_name a (t, name_of a t instruments) index)
            (ground (arith, h, other)) given
    ]

has_symbol-or_fuzzy :
    (s key : Text) (index : NameIndex) (bucket : List Item)
    → has_symbol s bucket ≡ true
    → has_symbol s (or_fuzzy key index bucket) ≡ true
unfolding any
has_symbol-or_fuzzy s key index [] h = ground (arith, h)
has_symbol-or_fuzzy s key index (item ∷ bucket) h = h

has_symbol-hits_of :
    (s name : Text) (index : NameIndex)
    → Keeps (norm name) s index
    → has_symbol s (hits_of name index) ≡ true
unfolding hits_of
has_symbol-hits_of s name index h =
    has_symbol-or_fuzzy s (norm name) index (bucket_at (norm name) index) h

only_symbol :
    (s u : Text) (hits : List Item) → All (λ h. h.0 ≡ u) hits → has_symbol s hits ≡ true → s ≡ u
unfolding any
only_symbol s u [] all h = absurd (ground (arith, h))
only_symbol s u (item ∷ hits) all h = elim (Bool-cases (text_eq s item.0)) [
  | inl same ↦ (text_eq_iff s item.0).0 same ∙ all.0
  | inr other ↦ only_symbol s u hits all.1 (ground (arith, h, other))
]

-- A result about hits of a symbol has them, and finds no other.
abbrev pub Finds : Text → ResolveResult → Type 0
Finds s r = (r.status ≢ unresolved) × ((t : Text) → r.symbol ≡ some t → t ≡ s)

Says-Finds :
    (s : Text) (hits : List Item) (r : ResolveResult)
    → Says hits r
    → has_symbol s hits ≡ true
    → Finds s r
unfolding any
Says-Finds s hits r (inl (u, found, status, _, all)) h =
    (λ e. ground (arith, e, status), λ t e. ground (arith, e, found, only_symbol s u hits all h))
Says-Finds s hits r (inr (inl (u, v, no_symbol, status, _, _, _))) h =
    (λ e. ground (arith, e, status), λ t e. absurd (ground (arith, e, no_symbol)))
Says-Finds s hits r (inr (inr (no_symbol, status, empty))) h =
    let bad = subst (λ l. has_symbol s l ≡ true) empty h in
    (λ e. ground (arith, bad), λ t e. absurd (ground (arith, bad)))

-- A name of an instrument, or an alias of a symbol, that is more than blanks is found in the index
-- that was built with it: it may stand for several symbols, but never for another alone.
pub build_name_index-Finds :
    (name s : Text) (aliases : List (Text × Text)) (instruments : List Item)
    → is_listed (s, name) instruments || is_listed (name, s) aliases ≡ true
    → is_blank (norm name) ≡ false
    → Finds s (resolve_name name (build_name_index aliases instruments))
unfolding build_name_index
build_name_index-Finds name s aliases instruments listed given =
    let index = build_name_index aliases instruments in
    let kept : Keeps (norm name) s index = elim (Bool-cases (is_listed (s, name) instruments)) [
      | inl here ↦
          Keeps-add_aliases (norm name) s instruments aliases (add_instruments instruments [])
            (instrument-Keeps s name instruments [] here given)
      | inr there ↦
          alias-Keeps name s instruments aliases (add_instruments instruments [])
            (ground (arith, listed, there)) given
    ] in
    Says-Finds s (hits_of name index) (resolve_name name index) (resolve_name-Says name index)
      (has_symbol-hits_of s name index kept)
