-- ===== src/Tracker/Hits.antt =====
-- Which of the two prices was met first (`_hit_flags` of event_study.py).
use signal_lab.Common.{
  ℕ, suc, ◌≡◌, refl, sym, ◌∙◌, Bool, true, false, inl, inr, Bool-cases, arith, ltb, leb, Option,
  none, some, List, [], ◌∷◌, if◌then◌else◌,
}
use signal_lab.Common.Float.{Floats}
use signal_lab.Tracker.EventStudy.{
  Bar, unmet, on_target, on_stop, is_on_target, is_on_stop, reaches, falls_to, first_hit, flag_for,
  hit_flags,
}

-- The number of days before the first that passes a test.
abbrev pub later : Option ℕ → Option ℕ
later none = none
later (some i) = some (suc i)

module _ {F : Type 0} where
  unfoldable pub first_index : (Bar F → Bool) → List (Bar F) → Option ℕ
  first_index p [] = none
  first_index p (bar ∷ bars) = if p bar then some 0 else later (first_index p bars)

-- An event that came, and not after another; one that came before another.
abbrev pub no_later : Option ℕ → Option ℕ → Bool
no_later none j = false
no_later (some i) none = true
no_later (some i) (some j) = leb i j

abbrev pub before : Option ℕ → Option ℕ → Bool
before none j = false
before (some i) none = true
before (some i) (some j) = ltb i j

no_later-later : (i j : Option ℕ) → no_later (later i) (later j) ≡ no_later i j
no_later-later none j = refl
no_later-later (some i) none = refl
no_later-later (some i) (some j) = ground arith

before-later : (i j : Option ℕ) → before (later i) (later j) ≡ before i j
before-later none j = refl
before-later (some i) none = refl
before-later (some i) (some j) = ground arith

before_zero : (i : Option ℕ) → before i (some 0) ≡ false
before_zero none = refl
before_zero (some i) = ground arith

no_later-zero : (i : Option ℕ) → no_later (some 0) i ≡ true
no_later-zero none = refl
no_later-zero (some i) = ground arith

no_later-later_zero : (i : Option ℕ) → no_later (later i) (some 0) ≡ false
no_later-later_zero none = refl
no_later-later_zero (some i) = ground arith

before_zero-later : (i : Option ℕ) → before (some 0) (later i) ≡ true
before_zero-later none = refl
before_zero-later (some i) = ground arith

module _ {F : Type 0} ⦃fl : Floats F⦄ (target stop : Option F) where
  first_hit_stays :
      (bars : List (Bar F))
      → (first_hit target stop on_target bars ≡ on_target)
        × (first_hit target stop on_stop bars ≡ on_stop)
  unfolding first_hit
  first_hit_stays [] = (refl, refl)
  first_hit_stays (bar ∷ bars) = first_hit_stays bars

  first_hit-first_index :
      (bars : List (Bar F))
      → let first = first_hit target stop unmet bars in
        let i = first_index (reaches target) bars in
        let j = first_index (falls_to stop) bars in
        (is_on_target first ≡ no_later i j) × (is_on_stop first ≡ before j i)
  unfolding first_hit first_index
  first_hit-first_index [] = (refl, refl)
  first_hit-first_index (bar ∷ bars) =
      let (on_t, on_s) = first_hit_stays bars in
      let (ih_t, ih_s) = first_hit-first_index bars in
      elim (Bool-cases (reaches target bar)) [
        | inl reached ↦ rw reached (
            rw on_t (
              sym (
                  no_later-zero (
                    if falls_to stop bar
                    then some 0
                    else later (first_index (falls_to stop) bars))),
              sym (
                  before_zero (
                    if falls_to stop bar
                    then some 0
                    else later (first_index (falls_to stop) bars))),
            ))
        | inr not_reached ↦ rw not_reached (elim (Bool-cases (falls_to stop bar)) [
          | inl fell ↦ rw fell (
              rw on_s (
                sym (no_later-later_zero (first_index (reaches target) bars)),
                sym (before_zero-later (first_index (reaches target) bars)),
              ))
          | inr not_fell ↦ rw not_fell (
            ih_t
                ∙ sym (
                    no_later-later (first_index (reaches target) bars)
                      (first_index (falls_to stop) bars)),
            ih_s
                ∙ sym (
                    before-later (first_index (falls_to stop) bars)
                      (first_index (reaches target) bars)),
          )
        ])
      ]

  -- The loop gives the target first exactly when some day reached it and no earlier day fell to
  -- the stop, and the stop first exactly when some day fell to it and neither that day nor an
  -- earlier one reached the target; a price that is not given has no answer.
  pub hit_flags_lem :
      (bars : List (Bar F))
      → let i = first_index (reaches target) bars in
        let j = first_index (falls_to stop) bars in
        hit_flags bars target stop ≡ (flag_for target (no_later i j), flag_for stop (before j i))
  unfolding hit_flags
  hit_flags_lem bars = let (t, s) = first_hit-first_index bars in rw t (rw s refl)
