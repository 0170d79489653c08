-- ===== src/Runners/Completed.antt =====
-- How a run is reported as finished (`main` of runners/alphaagent and runners/rdagent).
use mathlib.Core.Path.{subst}
use signal_lab.Common.{
  append_none, ℕ, zero, suc, ◌≡◌, refl, ap, ◌∙◌, ◌⊎◌, inl, inr, Bool, true, false, none, some, List,
  [], ◌∷◌, ◌++◌, ok, Keeps, bind-ok, Result, sym, pure, ◌>>=◌,
}
use signal_lab.Common.Float.{Floats}
use signal_lab.Common.Text.{Text}
use signal_lab.Contracts.Events.{CompletionReport, CompletionStatus, budget_exceeded, failed}
use signal_lab.Runners.Reporter.{
  Machine, Work, Line, event_line, complete_line, error_line, Sent, sent_event, sent_complete,
  sent_artifact, complete, upload_artifact, record_loop, add_line,
}
use signal_lab.Runners.Runner.{
  Framework, Writers, to_manifest, stub_result, research, report_end, deliver, after, main,
}
use signal_lab.Runners.Steps.{
  Notes, Research, event_after, complete_after, upload_after, research-Keeps,
}
use signal_lab.Runners.Ending.{
  OnlyUrlErrors, Writes, complete_returns, upload-Returns, research_returns,
}

none-some : {A : Type 0} {x : A} → none ≡ some x → ⊥
none-some e = cc

-- The completion reports in the file, and those that were sent.
module _ {F : Type 0} where
  abbrev pub completions : List (Line F) → List (CompletionReport F)
  completions [] = []
  completions (event_line e ∷ ls) = completions ls
  completions (complete_line c ∷ ls) = c ∷ completions ls
  completions (error_line e path ∷ ls) = completions ls

  abbrev pub sent_completions : List (Sent F) → List (CompletionReport F)
  sent_completions [] = []
  sent_completions (sent_event e ∷ xs) = sent_completions xs
  sent_completions (sent_complete c ∷ xs) = c ∷ sent_completions xs
  sent_completions (sent_artifact body ∷ xs) = sent_completions xs

  completions-append :
      (ls ms : List (Line F)) → completions (ls ++ ms) ≡ completions ls ++ completions ms
  completions-append [] ms = refl
  completions-append (event_line e ∷ ls) ms = completions-append ls ms
  completions-append (complete_line c ∷ ls) ms = ap (λ xs. c ∷ xs) (completions-append ls ms)
  completions-append (error_line e path ∷ ls) ms = completions-append ls ms

  sent_completions-append :
      (xs ys : List (Sent F))
      → sent_completions (xs ++ ys) ≡ sent_completions xs ++ sent_completions ys
  sent_completions-append [] ys = refl
  sent_completions-append (sent_event e ∷ xs) ys = sent_completions-append xs ys
  sent_completions-append (sent_complete c ∷ xs) ys =
      ap (λ zs. c ∷ zs) (sent_completions-append xs ys)
  sent_completions-append (sent_artifact body ∷ xs) ys = sent_completions-append xs ys

-- The work holds just these completion reports, in the file and on the wire.
abbrev pub Reports : {F W : Type 0} → List (CompletionReport F) → Work F W → Type 0
Reports cs s = (completions s.lines ≡ cs) × (sent_completions s.sent ≡ cs)

abbrev pub status_of : ℕ → CompletionStatus
status_of zero = budget_exceeded
status_of (suc n) = failed

-- There is one report, with this status and this package.
abbrev pub ReportsOne : {F W : Type 0} → CompletionStatus → ℕ → Work F W → Type 0
ReportsOne {F = F} st id t =
    (c : CompletionReport F) × (c.status ≡ st) × (c.package_id ≡ some id) × Reports (c ∷ []) t

-- The run of package `id` ended with `code` and one report.
abbrev pub Ended : {F W : Type 0} → ℕ → ℕ → Work F W → Type 0
Ended id code t = ((code ≡ 0) ⊎ (code ≡ 2)) × ReportsOne (status_of code) id t

module _ {F W : Type 0} where
  error_line-Reports :
      (cs : List (CompletionReport F)) (e path : Text) (s : Work F W)
      → Reports cs s
      → Reports cs (add_line (error_line e path) s)
  error_line-Reports cs e path s h = (
    completions-append s.lines (error_line e path ∷ []) ∙ append_none (completions s.lines) ∙ h.0,
    h.1,
  )

  notes-Reports : (mc : Machine F W) → Notes mc (Reports [])
  notes-Reports mc = record { world = λ w t q. q; error_line = error_line-Reports [] }

  notes-ReportsOne :
      (mc : Machine F W) (st : CompletionStatus) (id : ℕ) → Notes mc (ReportsOne st id)
  notes-ReportsOne mc st id = record {
    world = λ w t q. q;
    error_line = λ e path t (c, a, b, q). (c, a, b, error_line-Reports (c ∷ []) e path t q);
  }

module _ {F W : Type 0} ⦃fl : Floats F⦄ (mc : Machine F W) where
  steps-Reports : Research mc (Reports {W = W} [])
  unfolding record_loop
  steps-Reports = record {
    world = λ w s h. h;
    event = λ r s h.
        event_after mc (Reports []) r s (notes-Reports mc) (λ n x v w e q. h)
          (λ e w n. (
            completions-append s.lines (event_line e ∷ [])
                ∙ append_none (completions s.lines)
                ∙ h.0,
            sent_completions-append s.sent (sent_event e ∷ [])
                ∙ append_none (sent_completions s.sent)
                ∙ h.1,
          ));
    record_loop = λ cost s left h. h;
  }

  upload-Reports : (body : Text) → Keeps (Reports []) (upload_artifact mc body)
  upload-Reports body s h =
      upload_after mc (Reports []) body s
        (λ w. (
          h.0,
          sent_completions-append s.sent (sent_artifact body ∷ [])
              ∙ append_none (sent_completions s.sent)
              ∙ h.1,
        ))
        (λ name content t q. q)

  complete-Reports :
      Writes mc
      → (st : CompletionStatus) (id : ℕ) (s : Work F W) → Reports [] s
      → ReportsOne st id (complete mc st (some id) s).1
  complete-Reports disk st id s h =
      complete_after mc (ReportsOne st id) st (some id) s (notes-ReportsOne mc st id)
        (λ x w e. absurd (none-some (sym (disk s.world) ∙ e)))
        (λ c w e. (
          c,
          e.0,
          e.1,
          (
            completions-append s.lines (complete_line c ∷ []) ∙ ap (λ cs. cs ++ c ∷ []) h.0,
            sent_completions-append s.sent (sent_complete c ∷ []) ∙ ap (λ cs. cs ++ c ∷ []) h.1,
          ),
        ))

module _ {F W : Type 0} ⦃fl : Floats F⦄ (mc : Machine F W) (net : OnlyUrlErrors mc)
    (disk : Writes mc) (wr : Writers F) (fw : Framework F) where
  Done : ℕ → Result Text ℕ × Work F W → Type 0
  Done id p = (code : ℕ) × (p.0 ≡ ok code) × Ended id code p.1

  report_end-Done :
      (id : ℕ) (uploaded : Bool) (s : Work F W)
      → Reports [] s
      → Done id (report_end mc wr fw id uploaded s)
  unfolding Done
  report_end-Done id true s h =
      let r = complete-Reports mc disk budget_exceeded id s h in
      let e = complete_returns mc net disk budget_exceeded (some id) s in
      subst (Done id)
        (sym (
          bind-ok (complete mc budget_exceeded (some id)) (λ _. pure 0) s tt _
            (ap (λ x. (x, (complete mc budget_exceeded (some id) s).1)) e)))
        (0, refl, (inl refl, r))
  report_end-Done id false s h =
      let r = complete-Reports mc disk failed id s h in
      let e = complete_returns mc net disk failed (some id) s in
      subst (Done id)
        (sym (
          bind-ok (complete mc failed (some id)) (λ _. pure 2) s tt _
            (ap (λ x. (x, (complete mc failed (some id) s).1)) e)))
        (2, refl, (inr refl, r))

  upload-Done :
      (id : ℕ) (body : Text) (s : Work F W)
      → Reports [] s
      → Done id ((upload_artifact mc body >>= report_end mc wr fw id) s)
  upload-Done id body s h =
      let (b, e) = upload-Returns mc net disk body s in
      subst (Done id)
        (sym (
          bind-ok (upload_artifact mc body) (report_end mc wr fw id) s b _
            (ap (λ x. (x, (upload_artifact mc body s).1)) e)))
        (report_end-Done id b _ (upload-Reports mc body s h))

  -- If the network only fails in the ways the reporter catches, and the file of the events can be
  -- written, a run that has reported nothing yet returns a code: 0 with one report of `budget_exceeded`, or 2 with one of `failed`, which
  -- names the package; it is the only one in events.jsonl, and the only one that is sent.
  pub main_completed :
      (id : ℕ) (snapshot : Text) (s : Work F W)
      → Reports [] s
      → (code : ℕ) × ((main mc wr fw id snapshot s).0 ≡ ok code)
        × Ended id code (main mc wr fw id snapshot s).1
  unfolding main deliver to_manifest stub_result Done
  main_completed id snapshot s h =
      let (ic, e) = research_returns mc net disk wr fw s in
      let quiet = research-Keeps mc wr fw (Reports []) (steps-Reports mc) s h in
      subst (λ r. Done id (after mc wr fw id snapshot r (research mc wr fw s).1)) (sym e)
        (upload-Done id _ _ quiet)
