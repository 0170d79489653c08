-- ===== src/Common/Methods.antt =====
-- Python methods that change a state and may raise: what was written before a raise stays
-- written, so the state comes back beside the exception too.
use mathlib.Core.Path.{◌≡◌, refl, ap, ◌∙◌}
use native.Mathlib.Omega.{arith}
use mathlib.Core.Logic.{◌⊎◌, inl, inr}

pub data Result (E A : Type 0) : Type 0 where
  ok : A → Result E A
  err : E → Result E A

abbrev pub Exec : Type 0 → Type 0 → Type 0 → Type 0
Exec S E A = S → Result E A × S

module _ {S E A : Type 0} where
  abbrev pub pure : A → Exec S E A
  pure a s = (Result.ok a, s)

  abbrev pub raise : E → Exec S E A
  raise e s = (Result.err e, s)

  abbrev pub gets : (S → A) → Exec S E A
  gets f s = (Result.ok (f s), s)

module _ {S E : Type 0} where
  abbrev pub modify : (S → S) → Exec S E (Unit {0})
  modify f s = (Result.ok tt, f s)

infixl 5 ◌>>=◌ ◌>>◌
abbrev pub ◌>>=◌ : {S E A B : Type 0} → Exec S E A → (A → Exec S E B) → Exec S E B
◌>>=◌ m f s =
    let (r, s') = m s in elim r [ Result.ok a ↦ f a s' | Result.err e ↦ (Result.err e, s') ]

abbrev pub ◌>>◌ : {S E A B : Type 0} → Exec S E A → Exec S E B → Exec S E B
m >> k = m >>= λ _. k

pub Result-cases :
    {E A : Type 0} (r : Result E A) → ((a : A) × (r ≡ Result.ok a)) ⊎ ((e : E) × (r ≡ Result.err e))
Result-cases (Result.ok a) = inl (a, refl)
Result-cases (Result.err e) = inr (e, refl)

-- What a chain does after its first method.
module _ {S E A B : Type 0} (m : Exec S E A) (k : A → Exec S E B) (s : S) where
  pub bind-ok : (a : A) (t : S) → m s ≡ (Result.ok a, t) → (m >>= k) s ≡ k a t
  bind-ok a t e = ap (λ p. ((λ (_ : S). p) >>= k) s) e

  bind_result :
      (r : Result E A) (b : B)
      → (((λ (t : S). (r, t)) >>= k) (m s).1).0 ≡ Result.ok b
      → (a : A) × (r ≡ Result.ok a)
  bind_result (Result.ok a) b h = (a, refl)
  bind_result (Result.err e) b h = absurd (ground (arith, h))

  pub bind_inversion :
      (b : B)
      → ((m >>= k) s).0 ≡ Result.ok b
      → (a : A) × ((m s).0 ≡ Result.ok a) × ((m >>= k) s ≡ k a (m s).1)
  bind_inversion b h =
      let (a, e) = bind_result (m s).0 b h in
      (a, e, ap (λ r. ((λ (t : S). (r, t)) >>= k) (m s).1) e)

-- What a method keeps of the state, whatever it returns or raises.
module _ {S E : Type 0} (P : S → Type 0) where
  abbrev pub Keeps : {A : Type 0} → Exec S E A → Type 0
  Keeps m = (s : S) → P s → P (m s).1

  pub Keeps-result :
      {A B : Type 0} (r : Result E A) (k : A → Exec S E B) (s : S)
      → ((a : A) → Keeps (k a))
      → P s
      → P (((λ (t : S). (r, t)) >>= k) s).1
  Keeps-result (Result.ok a) k s hk h = hk a s h
  Keeps-result (Result.err e) k s hk h = h

  pub Keeps-bind :
      {A B : Type 0} (m : Exec S E A) (k : A → Exec S E B)
      → Keeps m
      → ((a : A) → Keeps (k a))
      → Keeps (m >>= k)
  Keeps-bind m k hm hk s h = Keeps-result (m s).0 k (m s).1 hk (hm s h)

-- A method that returns at a state.
abbrev pub Returns : {S E A : Type 0} → Exec S E A → S → Type 0
Returns {A = A} m s = (a : A) × ((m s).0 ≡ Result.ok a)

pub bind_returns :
    {S E A B : Type 0} (m : Exec S E A) (k : A → Exec S E B) (s : S) (a : A) (b : B)
    → (m s).0 ≡ Result.ok a
    → (k a (m s).1).0 ≡ Result.ok b
    → ((m >>= k) s).0 ≡ Result.ok b
bind_returns {S = S} m k s a b e h = ap (λ r. (((λ (t : S). (r, t)) >>= k) (m s).1).0) e ∙ h
