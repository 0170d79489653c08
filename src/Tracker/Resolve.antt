-- ===== src/Tracker/Resolve.antt =====
-- packages/tracker/src/signal_tracker/resolve.py: from the name of a stock to its symbol. A
-- dictionary is the list of its entries in the order of insertion.
use signal_lab.Common.{
  ℕ, ◌==◌, Bool, true, false, not, ◌&&◌, ◌||◌, Option, none, some, List, [], ◌∷◌, ◌++◌, map, select,
  any, if◌then◌else◌,
}
use signal_lab.Common.Text.{Text, text_eq, strip, lower, ends_with}
use signal_lab.Common.TextSet.{is_in}

-- (symbol, name)
abbrev pub Item : Type 0
Item = Text × Text

abbrev pub NameIndex : Type 0
NameIndex = List (Text × List Item)

abbrev pub narrow : ℕ → ℕ
narrow c = if c == 65313 then b'A' else if c == 65314 then b'B' else c

-- `_norm`
unfoldable pub norm : Text → Text
norm s = lower (map narrow (select (λ c. not (c == b' ')) (strip s)))

abbrev pub is_blank : Text → Bool
is_blank [] = true
is_blank (c ∷ s) = false

abbrev pub item_eq : Item → Item → Bool
item_eq a b = text_eq a.0 b.0 && text_eq a.1 b.1

-- `index.get(key, [])`
unfoldable pub bucket_at : Text → NameIndex → List Item
bucket_at key [] = []
bucket_at key ((k, bucket) ∷ index) = if text_eq k key then bucket else bucket_at key index

abbrev pub put_in : Item → List Item → List Item
put_in item bucket = if any (item_eq item) bucket then bucket else bucket ++ item ∷ []

-- `index.setdefault(k, [])`, and the item in that bucket.
unfoldable pub add_at : Text → Item → NameIndex → NameIndex
add_at key item [] = (key, item ∷ []) ∷ []
add_at key item ((k, bucket) ∷ index) =
    if text_eq k key then (k, put_in item bucket) ∷ index else (k, bucket) ∷ add_at key item index

-- `add` of `build_name_index`
unfoldable pub add_name : Text → Item → NameIndex → NameIndex
unfolding add_at
add_name key item index = if is_blank (norm key) then index else add_at (norm key) item index

-- `name_by_symbol.get(symbol, alias)`: of several names of a symbol the last.
unfoldable pub name_of : Text → Text → List Item → Text
name_of alias symbol [] = alias
name_of alias symbol ((s, n) ∷ instruments) =
    name_of (if text_eq s symbol then n else alias) symbol instruments

unfoldable pub add_instruments : List Item → NameIndex → NameIndex
unfolding add_name
add_instruments [] index = index
add_instruments ((s, n) ∷ rest) index = add_instruments rest (add_name n (s, n) index)

-- The aliases are pairs (alias, symbol).
unfoldable pub add_aliases : List Item → List (Text × Text) → NameIndex → NameIndex
unfolding add_name name_of
add_aliases instruments [] index = index
add_aliases instruments ((alias, s) ∷ rest) index =
    add_aliases instruments rest (add_name alias (s, name_of alias s instruments) index)

unfoldable pub build_name_index : List (Text × Text) → List Item → NameIndex
unfolding add_instruments add_aliases
build_name_index aliases instruments =
    add_aliases instruments aliases (add_instruments instruments [])

pub data ResolveStatus : Type 0 where
  resolved ambiguous unresolved : ResolveStatus

pub record ResolveResult : Type 0 where
  pub status : ResolveStatus
  pub symbol : Option Text
  pub candidates : List Item

abbrev pub is_similar : Text → Text → Bool
is_similar key k = ends_with k key || ends_with key k

-- The items of all keys that end like the query, or that the query ends like.
unfoldable pub fuzzy : Text → NameIndex → List Item
fuzzy key [] = []
fuzzy key ((k, items) ∷ index) =
    let rest = fuzzy key index in if is_similar key k then items ++ rest else rest

abbrev pub or_fuzzy : Text → NameIndex → List Item → List Item
or_fuzzy key index [] = fuzzy key index
or_fuzzy key index (item ∷ items) = item ∷ items

-- The items that a name stands for, exactly or else by its end.
unfoldable pub hits_of : Text → NameIndex → List Item
unfolding bucket_at fuzzy
hits_of name index = or_fuzzy (norm name) index (bucket_at (norm name) index)

-- The first item of each symbol.
unfoldable pub one_per_symbol : List Text → List Item → List Item
one_per_symbol seen [] = []
one_per_symbol seen (item ∷ hits) =
    let old = one_per_symbol seen hits in
    let new = one_per_symbol (item.0 ∷ seen) hits in if is_in item.0 seen then old else item ∷ new

abbrev pub result_of : List Item → ResolveResult
result_of [] = record { status = unresolved; symbol = none; candidates = [] }
result_of (item ∷ []) = record { status = resolved; symbol = some item.0; candidates = item ∷ [] }
result_of (item ∷ other ∷ more) = record {
  status = ambiguous;
  symbol = none;
  candidates = item ∷ other ∷ more;
}

unfoldable pub resolve_name : Text → NameIndex → ResolveResult
unfolding hits_of one_per_symbol
resolve_name name index = result_of (one_per_symbol [] (hits_of name index))
