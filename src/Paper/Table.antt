-- ===== src/Paper/Table.antt =====
-- How the tables of packages/papertrade answer after a write (signal_papertrade/repo.py).
use signal_lab.Common.{
  ℕ, ◌==◌, ◌≡◌, ◌≢◌, refl, inl, inr, some, Bool-cases, ◌&&◌, List, [], ◌∷◌, ◌++◌, arith, All,
  if◌then◌else◌,
}
use mathlib.Core.Path.{subst}
use signal_lab.Common.Int.{ℤ, pos, ◌+ℤ◌, int_laws}
use signal_lab.Common.Text.{Text, text_eq, text_eq_iff}
use signal_lab.Paper.Models.{Order, Position}
use signal_lab.Paper.Repo.{get_order, flush_order, get_position, upsert_position, holds}
use signal_lab.Paper.Service.{quantity_of}

module _ {F : Type 0} where
  pub get_order-flush_ne :
      (k : ℕ) (o : Order F) (rows : List (Order F))
      → o.id ≢ k
      → get_order k (flush_order o rows) ≡ get_order k rows
  unfolding get_order flush_order
  get_order-flush_ne k o [] h = refl
  get_order-flush_ne k o (p ∷ rows) h = ground (arith, get_order-flush_ne k o rows h)

  pub get_order-flush_self :
      (o old : Order F) (rows : List (Order F))
      → get_order o.id rows ≡ some old
      → get_order o.id (flush_order o rows) ≡ some o
  unfolding get_order flush_order
  get_order-flush_self o old [] h = ground arith
  get_order-flush_self o old (p ∷ rows) h = ground (arith, get_order-flush_self o old rows)

  pub id-get_order :
      (k : ℕ) (o : Order F) (rows : List (Order F)) → get_order k rows ≡ some o → o.id ≡ k
  unfolding get_order
  id-get_order k o [] h = ground arith
  id-get_order k o (p ∷ rows) h = ground (arith, id-get_order k o rows)

  pub get_order-append :
      (k : ℕ) (o : Order F) (rows more : List (Order F))
      → get_order k rows ≡ some o
      → get_order k (rows ++ more) ≡ some o
  unfolding get_order
  get_order-append k o [] more h = ground arith
  get_order-append k o (p ∷ rows) more h = ground (arith, get_order-append k o rows more)

  -- An integer attached to each order, summed over the table.
  module _ (weight : Order F → ℤ) where
    unfoldable pub total : List (Order F) → ℤ
    total [] = pos 0
    total (o ∷ rows) = weight o +ℤ total rows

    pub total-append_one :
        (rows : List (Order F)) (o : Order F) → total (rows ++ o ∷ []) ≡ total rows +ℤ weight o
    unfolding total
    total-append_one [] o = omega int_laws
    total-append_one (p ∷ rows) o = rw (total-append_one rows o) (omega int_laws)

    pub total-flush :
        (o old : Order F) (rows : List (Order F))
        → get_order o.id rows ≡ some old
        → total (flush_order o rows) +ℤ weight old ≡ total rows +ℤ weight o
    unfolding total get_order flush_order
    total-flush o old [] h = ground arith
    total-flush o old (p ∷ rows) h = grind (int_laws, total-flush o old rows)

  pub quantity-upsert :
      (a b : ℕ) (s t : Text) (q : ℤ) (c : F) (rows : List (Position F))
      → quantity_of (get_position b t (upsert_position a s q c rows))
        ≡ (if (a == b) && text_eq s t then q else quantity_of (get_position b t rows))
  unfolding get_position upsert_position
  quantity-upsert a b s t q c [] = ground arith
  quantity-upsert a b s t q c (p ∷ rows) = ground (
    arith,
    text_eq_iff s t,
    text_eq_iff p.symbol s,
    text_eq_iff p.symbol t,
    quantity-upsert a b s t q c rows,
  )

  module _ (P : Position F → Type 0) where
    pub All-upsert :
        (a : ℕ) (s : Text) (q : ℤ) (c : F) (rows : List (Position F))
        → All P rows
        → ((p : Position F) → p.account_id ≡ a → p.quantity ≡ q → P p)
        → All P (upsert_position a s q c rows)
    unfolding upsert_position
    All-upsert a s q c [] h new = (new _ refl refl, tt)
    All-upsert a s q c (p ∷ rows) h new = elim (Bool-cases (holds a s p)) [
      | inl found ↦ rw found (new _ (ground arith) refl, h.1)
      | inr other ↦ rw other (h.0, All-upsert a s q c rows h.1 new)
    ]

  -- A property of every order.
  module _ (P : Order F → Type 0) where
    pub All-flush_order :
        (o : Order F) (rows : List (Order F)) → All P rows → P o → All P (flush_order o rows)
    unfolding flush_order
    All-flush_order o [] h p = tt
    All-flush_order o (q ∷ rows) h p = ground (arith, All-flush_order o rows h.1 p)

    pub All-get_order :
        (k : ℕ) (o : Order F) (rows : List (Order F)) → All P rows → get_order k rows ≡ some o → P o
    unfolding get_order
    All-get_order k o [] h e = ground arith
    All-get_order k o (q ∷ rows) h e = elim (Bool-cases (q.id == k)) [
      | inl found ↦ let p : q ≡ o = ground arith in subst P p h.0
      | inr other ↦ All-get_order k o rows h.1 (ground arith)
    ]

  -- A property of the position that is asked for.
  pub All-get_position :
      (P : Position F → Type 0) (a : ℕ) (s : Text) (p : Position F) (rows : List (Position F))
      → All P rows
      → get_position a s rows ≡ some p
      → P p
  unfolding get_position
  All-get_position P a s p [] h e = ground arith
  All-get_position P a s p (q ∷ rows) h e = elim (Bool-cases (holds a s q)) [
    | inl found ↦ let e' : q ≡ p = ground arith in subst P e' h.0
    | inr other ↦ All-get_position P a s p rows h.1 (ground arith)
  ]
