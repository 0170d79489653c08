-- ===== src/Runners/Steps.antt =====
-- What every step of a runner keeps, the whole runner keeps (runner.py of both frameworks).
use mathlib.Core.Path.{subst}
use signal_lab.Common.{
  ℕ, ◌+◌, ◌++◌, zero, suc, ◌≡◌, refl, inl, inr, Bool, true, false, Bool-cases, Option, none, some,
  [], ◌∷◌, Result, ok, err, ◌>>◌, pure, bind-ok, Result-cases, take, sym, Keeps, Keeps-result,
  Keeps-bind, modify,
}
use signal_lab.Common.Float.{Floats}
use signal_lab.Common.Text.{Text, codes}
use signal_lab.Contracts.Events.{
  sign_payload, RunnerEvent, CompletionReport, CompletionStatus, started, error, failed,
  budget_exceeded,
}
use signal_lab.Contracts.Package.{Manifest}
use signal_lab.Runners.Reporter.{
  Answer, status, url_error, raised, complete_line, error_line, Sent, sent_event, sent_complete,
  sent_artifact, append_local, add_line, appended, Line, event_line, conclude, request, post,
  Machine, Work, Run, Report, Reason, event, upload_artifact, complete, record_loop, is_out,
  over_time, exceeded, exceeded-cases, write_file,
}
use signal_lab.Runners.Runner.{
  Framework, RunResult, Writers, note, to_manifest, one_loop, stop_or, run_stub, enough, result_for,
  go_on, finish, research, report_end, deliver, give_up, main,
}

-- What holds once a line was to be written, or the answer to a request came in, whatever came of it.
module _ {F W : Type 0} (mc : Machine F W) (Q : Work F W → Type 0) where
  -- What the machine does by itself, and what the reporter notes of an error, keeps the property.
  pub record Notes : Type 0 where
    pub world : (w : W) (t : Work F W) → Q t → Q (record t { world = w })
    pub error_line : (e path : Text) (t : Work F W) → Q t → Q (add_line (error_line e path) t)

  -- The write of a line at a state failed.
  abbrev pub Refused : Work F W → Text → Type 0
  Refused s x = (mc.append s.world).0 ≡ some x

  append_after :
      (line : Line F) (s : Work F W)
      → ((x : Text) (w : W) → Refused s x → Q (record s { world = w }))
      → ((w : W) → Q (record (add_line line s) { world = w }))
      → Q (append_local mc line s).1
  append_after line s bad good = at (mc.append s.world).0 refl
    where
      at :
          (failed : Option Text)
          → (mc.append s.world).0 ≡ failed
          → Q (appended line failed (record s { world = (mc.append s.world).1 })).1
      at none e = good _
      at (some x) e = bad x _ e

  conclude_after :
      (on_error : Text → Run F W (Unit {0})) (a : Answer) (s : Work F W)
      → Q s
      → ((e : Text) → Keeps Q (on_error e))
      → Q (conclude on_error a s).1
  conclude_after on_error (status st) s h k = h
  conclude_after on_error (url_error e) s h k =
      Keeps-bind Q (on_error e) (λ _. pure false) (k e) (λ _ t q. q) s h
  conclude_after on_error (raised e) s h k = h

  request_after :
      (method path body : Text) (item : Sent F) (on_error : Text → Run F W (Unit {0}))
      (s : Work F W)
      → ((w : W) → Q (record s { world = w; sent = s.sent ++ item ∷ [] }))
      → ((e : Text) → Keeps Q (on_error e))
      → Q (request mc method path body item on_error s).1
  request_after method path body item on_error s h k =
      conclude_after on_error
        (mc.send method path body (sign_payload mc.hmac s.hmac_secret body) s.world).0 _ (h _) k

  post_after :
      (path body : Text) (item : Sent F) (s : Work F W)
      → Notes
      → ((w : W) → Q (record s { world = w; sent = s.sent ++ item ∷ [] }))
      → Q ((post mc path body item >> pure tt) s).1
  unfolding post
  post_after path body item s n h =
      Keeps-result Q (post mc path body item s).0 (λ _. pure tt) (post mc path body item s).1
        (λ _ t q. q)
        (request_after (codes "POST") path body item (λ e. append_local mc (error_line e path)) s h
          (λ e t q.
            append_after (error_line e path) t (λ _ w _. n.world w t q)
              (λ w. n.world w _ (n.error_line e path t q))))

  -- A line is written, and then a report is sent.
  filed_after :
      (line : Line F) (path body : Text) (item : Sent F) (s : Work F W)
      → Notes
      → ((x : Text) (w : W) → Refused s x → Q (record s { world = w }))
      → ((w : W) → Q (record (add_line line s) { world = w; sent = s.sent ++ item ∷ [] }))
      → Q ((append_local mc line >> (post mc path body item >> pure tt)) s).1
  filed_after line path body item s n bad good = at (mc.append s.world).0 refl
    where
      at :
          (failed : Option Text)
          → (mc.append s.world).0 ≡ failed
          → Q
              ((appended line failed >> (post mc path body item >> pure tt))
                (record s { world = (mc.append s.world).1 })).1
      at none e = post_after path body item _ n good
      at (some x) e = bad x _ e

  pub event_after :
      (r : Report F) (s : Work F W)
      → Notes
      → ((n : ℕ) (x : Text) (v w : W)
          → (mc.append v).0 ≡ some x
          → n ≡ s.seq + 1
          → Q (record s { seq = n; world = w }))
      → ((e : RunnerEvent F) (w : W)
          → (e.seq ≡ s.seq + 1) × (e.job_id ≡ s.job_id)
          → Q (record (add_line (event_line e) (record s { seq = e.seq })) {
            world = w;
            sent = s.sent ++ sent_event e ∷ [];
          }))
      → Q (event mc r s).1
  unfolding event
  event_after r s n bad h =
      filed_after _ (codes "/events") _ _ _ n (λ x w e. bad _ x _ w e refl)
        (λ w. h _ w (refl, refl))

  pub complete_after :
      (st : CompletionStatus) (id : Option ℕ) (s : Work F W)
      → Notes
      → ((x : Text) (w : W) → Refused s x → Q (record s { world = w }))
      → ((c : CompletionReport F) (w : W)
          → (c.status ≡ st) × (c.package_id ≡ id)
          → Q (record (add_line (complete_line c) s) {
            world = w;
            sent = s.sent ++ sent_complete c ∷ [];
          }))
      → Q (complete mc st id s).1
  unfolding complete
  complete_after st id s n bad h =
      filed_after _ (codes "/complete") _ _ s n bad (λ w. h _ w (refl, refl))

  pub upload_after :
      (body : Text) (s : Work F W)
      → ((w : W) → Q (record s { world = w; sent = s.sent ++ sent_artifact body ∷ [] }))
      → ((name content : Text) (t : Work F W) → Q t → Q (write_file name content t))
      → Q (upload_artifact mc body s).1
  unfolding upload_artifact
  upload_after body s h k =
      request_after (codes "PUT") [] body (sent_artifact body)
        (λ e. do
          modify (write_file (codes "artifact_upload_error.txt") e)
          modify (write_file (codes "package.zip") body))
        s h (λ e t q. k (codes "package.zip") body _ (k (codes "artifact_upload_error.txt") e t q))

module _ {F W : Type 0} ⦃fl : Floats F⦄ (mc : Machine F W) (P : Work F W → Type 0) where
  -- The steps of the research, and those of the end.
  pub record Research : Type 0 where
    pub world : (w : W) (s : Work F W) → P s → P (record s { world = w })
    pub event : (r : Report F) → Keeps P (event mc r)
    pub record_loop :
        (cost : F) (s : Work F W) → is_out s.guard ≡ false → P s → P (record_loop cost s)

  pub record Finish : Type 0 where
    pub write_file : (name body : Text) (s : Work F W) → P s → P (write_file name body s)
    pub upload_artifact : (body : Text) → Keeps P (upload_artifact mc body)
    pub complete :
        (st : CompletionStatus) (package_id : Option ℕ) → Keeps P (complete mc st package_id)

module _ {F W : Type 0} ⦃fl : Floats F⦄ (mc : Machine F W) (wr : Writers F) (fw : Framework F)
    (P : Work F W → Type 0) (i : Research mc P) where
  one_loop-Keeps :
      (ic : F) (s : Work F W) → is_out s.guard ≡ false → P s → P (one_loop mc wr fw ic s).1
  unfolding one_loop
  one_loop-Keeps ic s left h =
      i.event _ _ (i.record_loop fw.loop_cost _ left (i.world (mc.sleep s.world) s h))

  stop_or-Keeps :
      (reason : Option Reason) (ic : F) (go : Run F W (Option F)) (s : Work F W)
      → P s
      → P (go s).1
      → P (stop_or mc wr fw reason ic go s).1
  stop_or-Keeps (some reason) ic go s h hg = h
  stop_or-Keeps none ic go s h hg = hg

  go_on-Keeps :
      (ic : F) (more : Run F W (Option F)) → Keeps P more → Keeps P (go_on mc wr fw ic more)
  go_on-Keeps ic more hm s h = elim (Bool-cases (is_out s.guard)) [
    | inl yes₁ ↦ rw yes₁ h
    | inr no₁ ↦ rw no₁ (hm s h)
  ]

  round-Keeps :
      (ic : F) (more : Run F W (Option F)) (s : Work F W)
      → is_out s.guard ≡ false
      → Keeps P more
      → P s
      → P ((one_loop mc wr fw ic >> go_on mc wr fw ic more) s).1
  round-Keeps ic more s left hm h =
      Keeps-result P (one_loop mc wr fw ic s).0 (λ _. go_on mc wr fw ic more)
        (one_loop mc wr fw ic s).1 (λ _. go_on-Keeps ic more hm) (one_loop-Keeps ic s left h)

  run_stub-Keeps : (fuel : ℕ) (ic : F) → Keeps P (run_stub mc wr fw fuel ic)
  unfolding run_stub
  run_stub-Keeps zero ic s h = h
  run_stub-Keeps (suc fuel) ic s h =
      let next = wr.round4 (fl.add ic fw.ic_step) in
      let more = run_stub mc wr fw fuel next in
      let k : Option Reason → Run F W (Option F) =
        λ reason. stop_or mc wr fw reason ic (one_loop mc wr fw next >> go_on mc wr fw next more) in
      let w = (mc.time s.world).1 in
      elim (exceeded-cases mc s) [
        | inl e ↦ subst (λ p. P p.1) (sym (bind-ok (exceeded mc) k s _ _ e)) h
        | inr (left, e) ↦
            subst (λ p. P p.1) (sym (bind-ok (exceeded mc) k s _ _ e))
              (stop_or-Keeps (over_time (mc.time s.world).0 s.guard) ic _ (record s { world = w })
                (i.world w s h)
                (round-Keeps next more (record s { world = w }) left (run_stub-Keeps fuel next)
                  (i.world w s h)))
      ]

  result_for-Keeps : (ic : Option F) → Keeps P (result_for mc wr fw ic)
  result_for-Keeps none s h = h
  result_for-Keeps (some ic) s h = h

  pub research-Keeps : Keeps P (research mc wr fw)
  unfolding research
  research-Keeps s =
      let start = note started fw.started_text in
      Keeps-bind P (event mc start >> run_stub mc wr fw (enough mc wr fw s) fw.start_ic)
        (result_for mc wr fw)
        (Keeps-bind P (event mc start) (λ _. run_stub mc wr fw (enough mc wr fw s) fw.start_ic)
          (i.event start) (λ _. run_stub-Keeps (enough mc wr fw s) fw.start_ic))
        result_for-Keeps s

  module _ (j : Finish mc P) where
    report_end-Keeps : (id : ℕ) (uploaded : Bool) → Keeps P (report_end mc wr fw id uploaded)
    report_end-Keeps id true =
        Keeps-bind P (complete mc budget_exceeded (some id)) (λ _. pure 0)
          (j.complete budget_exceeded (some id)) (λ _ s h. h)
    report_end-Keeps id false =
        Keeps-bind P (complete mc failed (some id)) (λ _. pure 2) (j.complete failed (some id))
          (λ _ s h. h)

    finish-Keeps :
        (id : ℕ) (result : RunResult F) (m : Result Text (Manifest F))
        → Keeps P (finish mc wr fw id result m)
    finish-Keeps id result (err e) s h = h
    finish-Keeps id result (ok m) s h =
        Keeps-bind P (upload_artifact mc (wr.zip m result)) (report_end mc wr fw id)
          (j.upload_artifact (wr.zip m result)) (report_end-Keeps id)
          (write_file (codes "package.zip") (wr.zip m result) s) (j.write_file _ _ s h)

    deliver-Keeps :
        (id : ℕ) (snapshot : Text) (result : RunResult F)
        → Keeps P (deliver mc wr fw id snapshot result)
    unfolding deliver
    deliver-Keeps id snapshot result s h =
        finish-Keeps id result (to_manifest result id snapshot) _ (j.write_file _ _ s h)

    give_up-Keeps : (e : Text) → Keeps P (give_up mc wr fw e)
    unfolding give_up
    give_up-Keeps e =
        Keeps-bind P (event mc (note error (take 200 e))) (λ _. complete mc failed none >> pure 1)
          (i.event (note error (take 200 e)))
          (λ _.
            Keeps-bind P (complete mc failed none) (λ _. pure 1) (j.complete failed none)
              (λ _ s h. h))

    pub main-Keeps : (id : ℕ) (snapshot : Text) → Keeps P (main mc wr fw id snapshot)
    unfolding main
    main-Keeps id snapshot s h = elim (Result-cases (research mc wr fw s).0) [
      | inl (result, e) ↦ rw e (deliver-Keeps id snapshot result _ (research-Keeps s h))
      | inr (x, e) ↦ rw e (give_up-Keeps x _ (research-Keeps s h))
    ]
