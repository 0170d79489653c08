-- ===== src/Runners/Numbered.antt =====
-- The numbers of a runner's events (`_next_seq` of common/reporter.py).
use mathlib.Core.Path.{subst}
use signal_lab.Common.{
  append_none, ℕ, ◌+◌, sym, some, ◌≡◌, refl, ap, ◌∙◌, List, [], ◌∷◌, ◌++◌, Keeps,
}
use signal_lab.Common.Float.{Floats}
use signal_lab.Common.Text.{Text}
use signal_lab.Runners.Reporter.{
  Machine, Work, Line, event_line, complete_line, error_line, Sent, sent_event, sent_complete,
  sent_artifact, record_loop, add_line, Report, event,
}
use signal_lab.Runners.Runner.{Framework, Writers, main}
use signal_lab.Runners.Steps.{
  Notes, Research, Finish, event_after, complete_after, upload_after, main-Keeps,
}

-- The numbers of the events in the file, and of those that were sent, each in order.
module _ {F : Type 0} where
  abbrev pub in_file : List (Line F) → List ℕ
  in_file [] = []
  in_file (event_line e ∷ ls) = e.seq ∷ in_file ls
  in_file (complete_line c ∷ ls) = in_file ls
  in_file (error_line e path ∷ ls) = in_file ls

  abbrev pub on_wire : List (Sent F) → List ℕ
  on_wire [] = []
  on_wire (sent_event e ∷ xs) = e.seq ∷ on_wire xs
  on_wire (sent_complete c ∷ xs) = on_wire xs
  on_wire (sent_artifact body ∷ xs) = on_wire xs

  in_file-append : (ls ms : List (Line F)) → in_file (ls ++ ms) ≡ in_file ls ++ in_file ms
  in_file-append [] ms = refl
  in_file-append (event_line e ∷ ls) ms = ap (λ xs. e.seq ∷ xs) (in_file-append ls ms)
  in_file-append (complete_line c ∷ ls) ms = in_file-append ls ms
  in_file-append (error_line e path ∷ ls) ms = in_file-append ls ms

  on_wire-append : (xs ys : List (Sent F)) → on_wire (xs ++ ys) ≡ on_wire xs ++ on_wire ys
  on_wire-append [] ys = refl
  on_wire-append (sent_event e ∷ xs) ys = ap (λ zs. e.seq ∷ zs) (on_wire-append xs ys)
  on_wire-append (sent_complete c ∷ xs) ys = on_wire-append xs ys
  on_wire-append (sent_artifact body ∷ xs) ys = on_wire-append xs ys

-- The numbers that were given in turn, 1, 2, ... up to the last, but for those of which the machine
-- refused to write the line.
pub data Given {F W : Type 0} (mc : Machine F W) : List ℕ → ℕ → Type 0 where
  unused : Given mc [] 0
  filed : (xs : List ℕ) (k n : ℕ) → n ≡ k + 1 → Given mc xs k → Given mc (xs ++ n ∷ []) n
  refused :
      (xs : List ℕ) (k n : ℕ) (w : W) (x : Text)
      → (mc.append w).0 ≡ some x
      → n ≡ k + 1
      → Given mc xs k
      → Given mc xs n

-- The events in the file are those that were sent, in the same order, and bear the numbers given.
abbrev pub Numbered : {F W : Type 0} → Machine F W → Work F W → Type 0
Numbered mc s = (on_wire s.sent ≡ in_file s.lines) × Given mc (in_file s.lines) s.seq

module _ {F W : Type 0} (mc : Machine F W) where
  pub begins-Numbered : (s : Work F W) → s.lines ≡ [] → s.sent ≡ [] → s.seq ≡ 0 → Numbered mc s
  begins-Numbered s empty unsent zero₁ = rw (empty, unsent, zero₁) (refl, unused)

  unnumbered_line :
      (line : Line F) (ls : List (Line F))
      → in_file (line ∷ []) ≡ []
      → in_file (ls ++ line ∷ []) ≡ in_file ls
  unnumbered_line line ls e =
      in_file-append ls (line ∷ []) ∙ ap (λ xs. in_file ls ++ xs) e ∙ append_none (in_file ls)

  unnumbered :
      (item : Sent F) (xs : List (Sent F))
      → on_wire (item ∷ []) ≡ []
      → on_wire (xs ++ item ∷ []) ≡ on_wire xs
  unnumbered item xs e =
      on_wire-append xs (item ∷ []) ∙ ap (λ ys. on_wire xs ++ ys) e ∙ append_none (on_wire xs)

  -- A line without a number, and then a report without one.
  add_unnumbered :
      (line : Line F) (s : Work F W)
      → in_file (line ∷ []) ≡ []
      → Numbered mc s
      → Numbered mc (add_line line s)
  add_unnumbered line s e h =
      let same = unnumbered_line line s.lines e in
      (h.0 ∙ sym same, subst (λ xs. Given mc xs s.seq) (sym same) h.1)

  notes-Numbered : Notes mc (Numbered mc)
  notes-Numbered = record {
    world = λ w t q. q;
    error_line = λ e path t q. add_unnumbered (error_line e path) t refl q;
  }

  event-Numbered : (r : Report F) → Keeps (Numbered mc) (event mc r)
  event-Numbered r s h =
      event_after mc (Numbered mc) r s notes-Numbered
        (λ n x v w e next. (h.0, refused _ s.seq n v x e next h.1))
        (λ e w n.
          let same = in_file-append s.lines (event_line e ∷ []) in
          (
            on_wire-append s.sent (sent_event e ∷ []) ∙ ap (λ xs. xs ++ e.seq ∷ []) h.0 ∙ sym same,
            subst (λ xs. Given mc xs e.seq) (sym same) (filed _ s.seq e.seq n.0 h.1),
          ))

module _ {F W : Type 0} ⦃fl : Floats F⦄ (mc : Machine F W) where
  steps-Numbered : Research mc (Numbered mc)
  unfolding record_loop
  steps-Numbered = record {
    world = λ w s h. h;
    event = event-Numbered mc;
    record_loop = λ cost s left h. h;
  }

  finish-Numbered : Finish mc (Numbered mc)
  finish-Numbered = record {
    write_file = λ name body s h. h;
    upload_artifact = λ body s h.
        upload_after mc (Numbered mc) body s
          (λ w. (unnumbered mc (sent_artifact body) s.sent refl ∙ h.0, h.1))
          (λ name content t q. q);
    complete = λ st id s h.
        complete_after mc (Numbered mc) st id s (notes-Numbered mc) (λ x w e. h)
          (λ c w e.
            let filed' = add_unnumbered mc (complete_line c) s refl h in
            (unnumbered mc (sent_complete c) s.sent refl ∙ filed'.0, filed'.1));
  }

  pub main-Numbered :
      (wr : Writers F) (fw : Framework F) (id : ℕ) (snapshot : Text)
      → Keeps (Numbered mc) (main mc wr fw id snapshot)
  main-Numbered wr fw = main-Keeps mc wr fw (Numbered mc) steps-Numbered finish-Numbered
