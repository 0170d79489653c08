-- ===== src/Runners/Ending.antt =====
-- The budget of a run, and that it ends (`BudgetGuard` and `_run_stub`).
use mathlib.Core.Path.{subst}
use signal_lab.Common.{
  ℕ, zero, suc, ◌+◌, ◌≤◌, ◌≡◌, refl, sym, ap, ◌∙◌, arith, inl, inr, Bool, true, false, Bool-cases,
  Option, none, some, [], ok, Keeps, Returns, bind_returns, bind-ok, ◌>>◌, pure,
}
use signal_lab.Common.Int.{ℤ, pos, pos_part, leb_ℤ}
use signal_lab.Common.Float.{Floats}
use signal_lab.Common.Text.{Text, codes}
use signal_lab.Contracts.Events.{CompletionStatus, started}
use signal_lab.Runners.Reporter.{
  Answer, status, url_error, raised, Machine, Work, Run, Report, Reason, Sent, Line, error_line,
  append_local, appended, conclude, post, event, upload_artifact, complete, record_loop, is_out,
  over_time, exceeded, exceeded-cases,
}
use signal_lab.Runners.Runner.{
  Framework, Writers, note, one_loop, stop_or, go_on, run_stub, enough, result_for, stub_result,
  research, main,
}
use signal_lab.Runners.Steps.{
  Notes, Research, Finish, event_after, complete_after, upload_after, main-Keeps,
}

-- The loops that were run are within the budget `max`.
abbrev pub Within : {F W : Type 0} → ℤ → Work F W → Type 0
Within max s = (s.guard.max_loops ≡ max) × (s.guard.loops ≤ pos_part max)

module _ {F W : Type 0} ⦃fl : Floats F⦄ (mc : Machine F W) (max : ℤ) where
  notes : Notes mc (Within max)
  notes = record { world = λ w t q. q; error_line = λ e path t q. q }

  steps-Within : Research mc (Within max)
  unfolding record_loop
  steps-Within = record {
    world = λ w s h. h;
    event = λ r s h. event_after mc (Within max) r s notes (λ n x v w e q. h) (λ e w n. h);
    record_loop = λ cost s left h.
        let left' : leb_ℤ max (pos s.guard.loops) ≡ false =
          ap (λ m. leb_ℤ m (pos s.guard.loops)) (sym h.0) ∙ left in
        (h.0, ground (arith, left'));
  }

  finish-Within : Finish mc (Within max)
  finish-Within = record {
    write_file = λ name body s h. h;
    upload_artifact =
        λ body s h. upload_after mc (Within max) body s (λ w. h) (λ name content t q. q);
    complete = λ st id s h. complete_after mc (Within max) st id s notes (λ x w e. h) (λ c w e. h);
  }

  -- Whatever the machine and the platform do, a run counts at most `max_loops` loops.
  pub main-Within :
      (wr : Writers F) (fw : Framework F) (id : ℕ) (snapshot : Text)
      → Keeps (Within max) (main mc wr fw id snapshot)
  main-Within wr fw = main-Keeps mc wr fw (Within max) steps-Within finish-Within

abbrev pub answered : Answer → Bool
answered (status st) = true
answered (url_error e) = true
answered (raised e) = false

-- A network whose failures are all a URLError or a TimeoutError, which the reporter catches.
abbrev pub OnlyUrlErrors : {F W : Type 0} → Machine F W → Type 0
OnlyUrlErrors {W = W} mc =
    (method path body signature : Text) (w : W)
    → answered (mc.send method path body signature w).0 ≡ true

-- A disk that takes every line of events.jsonl.
abbrev pub Writes : {F W : Type 0} → Machine F W → Type 0
Writes {W = W} mc = (w : W) → (mc.append w).0 ≡ none

module _ {F W : Type 0} where
  conclude-Returns :
      (on_error : Text → Run F W (Unit {0})) (a : Answer) (s : Work F W)
      → answered a ≡ true
      → ((e : Text) (t : Work F W) → (on_error e t).0 ≡ ok tt)
      → Returns (conclude on_error a) s
  conclude-Returns on_error (status st) s h k = (_, refl)
  conclude-Returns on_error (url_error e) s h k =
      (false, bind_returns (on_error e) (λ _. pure false) s tt false (k e s) refl)
  conclude-Returns on_error (raised e) s h k = absurd (ground (arith, h))

  bind_some :
      {A : Type 0} (m : Run F W (Unit {0})) (k : Run F W (Option A)) (s : Work F W)
      → (m s).0 ≡ ok tt
      → (a : A) × ((k (m s).1).0 ≡ ok (some a))
      → (a : A) × (((m >> k) s).0 ≡ ok (some a))
  bind_some m k s e (a, h) = (a, bind_returns m (λ _. k) s tt (some a) e h)

  module _ (mc : Machine F W) (net : OnlyUrlErrors mc) (disk : Writes mc) where
    append_returns : (line : Line F) (s : Work F W) → (append_local mc line s).0 ≡ ok tt
    append_returns line s =
        subst (λ o. (appended line o (record s { world = (mc.append s.world).1 })).0 ≡ ok tt)
          (sym (disk s.world)) refl

    post_returns :
        (path body : Text) (item : Sent F) (s : Work F W)
        → ((post mc path body item >> pure tt) s).0 ≡ ok tt
    unfolding post
    post_returns path body item s =
        let (b, e) =
          conclude-Returns (λ e. append_local mc (error_line e path)) _ _
            (net (codes "POST") path body _ s.world) (λ e. append_returns (error_line e path)) in
        bind_returns (post mc path body item) (λ _. pure tt) s b tt e refl

    filed_returns :
        (line : Line F) (path body : Text) (item : Sent F) (s : Work F W)
        → ((append_local mc line >> (post mc path body item >> pure tt)) s).0 ≡ ok tt
    filed_returns line path body item s =
        bind_returns (append_local mc line) (λ _. post mc path body item >> pure tt) s tt tt
          (append_returns line s) (post_returns path body item _)

    pub event_returns : (r : Report F) (s : Work F W) → (event mc r s).0 ≡ ok tt
    unfolding event
    event_returns r s = filed_returns _ (codes "/events") _ _ _

    pub complete_returns :
        (st : CompletionStatus) (id : Option ℕ) (s : Work F W) → (complete mc st id s).0 ≡ ok tt
    unfolding complete
    complete_returns st id s = filed_returns _ (codes "/complete") _ _ s

    pub upload-Returns : (body : Text) (s : Work F W) → Returns (upload_artifact mc body) s
    unfolding upload_artifact
    upload-Returns body s =
        conclude-Returns _ _ _ (net (codes "PUT") [] body _ s.world) (λ e t. refl)

module _ {F W : Type 0} ⦃fl : Floats F⦄ (mc : Machine F W) (net : OnlyUrlErrors mc)
    (disk : Writes mc) (wr : Writers F) (fw : Framework F) where
  event-guard : (r : Report F) (s : Work F W) → (event mc r s).1.guard ≡ s.guard
  event-guard r s =
      event_after mc (λ t. t.guard ≡ s.guard) r s
        (record { world = λ w t q. q; error_line = λ e path t q. q }) (λ n x v w e q. refl)
        (λ e w n. refl)

  one_loop_returns : (ic : F) (s : Work F W) → (one_loop mc wr fw ic s).0 ≡ ok tt
  unfolding one_loop
  one_loop_returns ic s = event_returns mc net disk _ _

  one_loop-guard :
      (ic : F) (s : Work F W)
      → ((one_loop mc wr fw ic s).1.guard.loops ≡ s.guard.loops + 1)
        × ((one_loop mc wr fw ic s).1.guard.max_loops ≡ s.guard.max_loops)
  unfolding one_loop record_loop
  one_loop-guard ic s =
      let e = event-guard _ (record_loop fw.loop_cost (record s { world = mc.sleep s.world })) in
      (ap (λ g. g.loops) e, ap (λ g. g.max_loops) e)

  stop_or_returns :
      (reason : Option Reason) (ic : F) (go : Run F W (Option F)) (s : Work F W)
      → (ic' : F) × ((go s).0 ≡ ok (some ic'))
      → (ic' : F) × ((stop_or mc wr fw reason ic go s).0 ≡ ok (some ic'))
  stop_or_returns (some reason) ic go s h = (ic, refl)
  stop_or_returns none ic go s h = h

  go_on_returns :
      (ic : F) (more : Run F W (Option F)) (s : Work F W)
      → (is_out s.guard ≡ false → (ic' : F) × ((more s).0 ≡ ok (some ic')))
      → (ic' : F) × ((go_on mc wr fw ic more s).0 ≡ ok (some ic'))
  go_on_returns ic more s h = elim (Bool-cases (is_out s.guard)) [
    | inl yes₁ ↦ rw yes₁ (ic, refl)
    | inr no₁ ↦ rw no₁ (h no₁)
  ]

  Finds : ℕ → F → Work F W → Type 0
  Finds fuel ic s = (ic' : F) × ((run_stub mc wr fw fuel ic s).0 ≡ ok (some ic'))

  round_returns :
      (fuel : ℕ) (ic : F) (s : Work F W)
      → (is_out s.guard ≡ false
          → (next : F) (u : Work F W) → u.guard.loops ≡ s.guard.loops + 1
          → u.guard.max_loops ≡ s.guard.max_loops
          → Finds fuel next u)
      → Finds (suc fuel) ic s
  unfolding run_stub Finds
  round_returns fuel ic s h =
      let next = wr.round4 (fl.add ic fw.ic_step) in
      let more = run_stub mc wr fw fuel next in
      let k : Option Reason → Run F W (Option F) =
        λ reason. stop_or mc wr fw reason ic (one_loop mc wr fw next >> go_on mc wr fw next more) in
      let t = record s { world = (mc.time s.world).1 } in
      let g = one_loop-guard next t in
      elim (exceeded-cases mc s) [
        | inl e ↦ (ic, ap (λ p. p.0) (bind-ok (exceeded mc) k s _ _ e))
        | inr (left, e) ↦
            subst (λ p. (ic' : F) × (p.0 ≡ ok (some ic'))) (sym (bind-ok (exceeded mc) k s _ _ e))
              (stop_or_returns (over_time (mc.time s.world).0 s.guard) ic _ t (
                bind_some (one_loop mc wr fw next) (go_on mc wr fw next more) t
                  (one_loop_returns next t)
                  (go_on_returns next more _ (λ _. h left next _ g.0 g.1))))
      ]

  -- Fuel for one round more than the loops that are left is enough.
  run_stub_returns :
      (n : ℕ) (ic : F) (s : Work F W)
      → leb_ℤ s.guard.max_loops (pos (s.guard.loops + n)) ≡ true
      → Finds (suc n) ic s
  run_stub_returns zero ic s fits =
      round_returns zero ic s (λ left. absurd (ground (arith, left, fits)))
  run_stub_returns (suc n) ic s fits =
      round_returns (suc n) ic s
        (λ left next u e m. run_stub_returns n next u (rw (e, m) (ground (arith, fits))))

  -- If the network only fails in the ways the reporter catches, and the file of the events can be
  -- written, the research ends with a result, however the clock and the platform behave: `run_stub` ends within its fuel.
  pub research_returns :
      (s : Work F W) → (ic : F) × ((research mc wr fw s).0 ≡ ok (stub_result fw ic))
  unfolding research Finds
  research_returns s =
      let start = note started fw.started_text in
      let u = (event mc start s).1 in
      let (ic, e) =
        run_stub_returns (pos_part s.guard.max_loops) fw.start_ic u
          (rw (event-guard start s) (ground arith)) in
      let run = event mc start >> run_stub mc wr fw (enough mc wr fw s) fw.start_ic in
      let e' : (run s).0 ≡ ok (some ic) =
        bind_returns (event mc start) (λ _. run_stub mc wr fw (enough mc wr fw s) fw.start_ic) s tt
          (some ic) (event_returns mc net disk start s) e in
      (ic, bind_returns run (result_for mc wr fw) s (some ic) (stub_result fw ic) e' refl)
