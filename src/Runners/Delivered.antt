-- ===== src/Runners/Delivered.antt =====
-- What the file of a runner gives the platform: runners/common/reporter.py writes events.jsonl, and
-- packages/research/src/signal_research/service.py, `replay_events_jsonl`, reads it.
use mathlib.Core.Path.{subst}
use signal_lab.Common.{
  ℕ, ◌+◌, ◌==◌, ◌≡◌, refl, sym, ap, ◌∙◌, arith, true, false, Option, none, some, is_some, List, [],
  ◌∷◌, ◌++◌, map, All, All-append_one, if◌then◌else◌, ok, err,
}
use signal_lab.Common.Float.{Floats}
use signal_lab.Common.Text.{Text, is_break, splitlines}
use signal_lab.Common.Lines.{splitlines_line}
use signal_lab.Contracts.Events.{RunnerEvent}
use signal_lab.Research.Ports.{Decoders}
use signal_lab.Research.Repo.{get_job, is_stored}
use signal_lab.Research.Session.{Session}
use signal_lab.Research.Decode.{event_of_line}
use signal_lab.Research.Reports.{replay_event, replay_lines, replay_events_jsonl}
use signal_lab.Research.Replay.{
  Settled, AllSettled, ingest_event-cases, replay_event-Extends, replay_lines-cons,
  replay_lines-Settled,
}
use signal_lab.Runners.Reporter.{
  Machine, Work, Line, event_line, complete_line, error_line, record_loop,
}
use signal_lab.Runners.Runner.{Framework, Writers, main}
use signal_lab.Runners.Steps.{
  Notes, Research, Finish, event_after, complete_after, upload_after, main-Keeps,
}
use signal_lab.Runners.Numbered.{in_file, on_wire, begins-Numbered, main-Numbered}

-- An event line is about the job.
abbrev pub AboutJob : {F : Type 0} → ℕ → Line F → Type 0
AboutJob id (event_line e) = e.job_id ≡ id
AboutJob id (complete_line c) = Unit
AboutJob id (error_line e path) = Unit

abbrev Labelled : {F W : Type 0} → ℕ → Work F W → Type 0
Labelled id s = (s.job_id ≡ id) × All (AboutJob id) s.lines

module _ {F W : Type 0} ⦃fl : Floats F⦄ (mc : Machine F W) (id : ℕ) where
  notes-Labelled : Notes mc (Labelled id)
  notes-Labelled = record {
    world = λ w t q. q;
    error_line =
        λ e path t h. (h.0, All-append_one (AboutJob id) t.lines (error_line e path) h.1 tt);
  }

  steps-Labelled : Research mc (Labelled id)
  unfolding record_loop
  steps-Labelled = record {
    world = λ w s h. h;
    event = λ r s h.
        event_after mc (Labelled id) r s notes-Labelled (λ n x v w e q. h)
          (λ e w n. (h.0, All-append_one (AboutJob id) s.lines (event_line e) h.1 (n.1 ∙ h.0)));
    record_loop = λ cost s left h. h;
  }

  finish-Labelled : Finish mc (Labelled id)
  finish-Labelled = record {
    write_file = λ name body s h. h;
    upload_artifact =
        λ body s h. upload_after mc (Labelled id) body s (λ w. h) (λ name content t q. q);
    complete = λ st p s h.
        complete_after mc (Labelled id) st p s notes-Labelled (λ x w e. h)
          (λ c w e. (h.0, All-append_one (AboutJob id) s.lines (complete_line c) h.1 tt));
  }

-- The event of the job that a line stands for.
abbrev pub event_in : {F : Type 0} → ℕ → Line F → Option (RunnerEvent F)
event_in id (event_line e) = if e.job_id == id then some e else none
event_in id (complete_line c) = none
event_in id (error_line e path) = none

-- The decoder reads what the runner wrote with `json.dumps`: an event as that event, if it is one
-- of the job, and the notes of the reporter as none.
abbrev pub Reads : {F J : Type 0} → Decoders F J → ℕ → (Line F → Text) → List (Line F) → Type 0
Reads d id dump = All (λ line. event_of_line d id (dump line) ≡ ok (event_in id line))

event_in-own :
    {F : Type 0} (id : ℕ) (e : RunnerEvent F) → e.job_id ≡ id → event_in id (event_line e) ≡ some e
event_in-own id e h =
    let own : (e.job_id == id) ≡ true = ground (arith, h) in
    ap (λ b. if b then some e else none) own

-- What stands in events.jsonl: each line as `json.dumps` writes it, and a line feed.
abbrev pub file_text : {F : Type 0} → (Line F → Text) → List (Line F) → Text
file_text dump [] = []
file_text dump (line ∷ lines) = dump line ++ 10 ∷ file_text dump lines

-- No text has a line boundary in it.
abbrev pub OneLine : {F : Type 0} → (Line F → Text) → List (Line F) → Type 0
OneLine dump = All (λ line. All (λ c. is_break c ≡ false) (dump line))

splitlines-file_text :
    {F : Type 0} (dump : Line F → Text) (lines : List (Line F))
    → OneLine dump lines
    → splitlines (file_text dump lines) ≡ map dump lines
unfolding splitlines
splitlines-file_text dump [] h = refl
splitlines-file_text dump (line ∷ lines) h =
    splitlines_line (dump line) (file_text dump lines) h.0
    ∙ ap (λ ls. dump line ∷ ls) (splitlines-file_text dump lines h.1)

module _ {F E J : Type 0} (d : Decoders F J) (id now : ℕ) (dump : Line F → Text) where
  IsKnown : Session F E → Type 0
  IsKnown r = is_some (get_job id r.db.jobs) ≡ true

  event_returns :
      (e : Option (RunnerEvent F)) (r : Session F E)
      → IsKnown r
      → (m : ℕ) × ((replay_event d now id (ok e) r).0 ≡ ok m)
  unfolding replay_event IsKnown
  event_returns none r h = (0, refl)
  event_returns (some e) r h =
      ingest_event-cases now id e r
        (λ a t.
          (m : ℕ) × ((elim a [ err x ↦ err x | ok duplicate ↦ ok (if duplicate then 0 else 1) ])
            ≡ ok m))
        (λ missing. absurd (ground (arith, h, missing))) (λ j _ _. (0, refl)) (λ j _ _. (1, refl))

  replay_returns :
      (lines : List (Line F)) (n : ℕ) (r : Session F E)
      → Reads d id dump lines
      → IsKnown r
      → (k : ℕ) × ((replay_lines d now id (map dump lines) n r).0 ≡ ok k)
  unfolding replay_lines IsKnown
  replay_returns [] n r h known = (n, refl)
  replay_returns (line ∷ lines) n r h known =
      let read = h.0 in
      let (m, e) = event_returns (event_in id line) r known in
      let e' : (replay_event d now id (event_of_line d id (dump line)) r).0 ≡ ok m =
        ap (λ x. (replay_event d now id x r).0) read ∙ e in
      let next = (replay_event d now id (event_of_line d id (dump line)) r).1 in
      let (k, rest) =
        replay_returns lines (n + m) next h.1
          ((replay_event-Extends d id now (event_of_line d id (dump line)) r).1 known) in
      (k, ap (λ t. t.0) (replay_lines-cons d id now (dump line) (map dump lines) n m r e') ∙ rest)

  filed_stored :
      (lines : List (Line F)) (r : Session F E)
      → All (AboutJob id) lines
      → Reads d id dump lines
      → AllSettled d id (map dump lines) r
      → All (λ seq. is_stored id seq r.db.events ≡ true) (in_file lines)
  filed_stored [] r h reads k = tt
  filed_stored (event_line e ∷ lines) r h reads k = (
    (subst (λ x. Settled d id x r) (reads.0 ∙ ap (λ x. ok x) (event_in-own id e h.0)) k.0).0,
    filed_stored lines r h.1 reads.1 k.1,
  )
  filed_stored (complete_line c ∷ lines) r h reads k = filed_stored lines r h.1 reads.1 k.1
  filed_stored (error_line e path ∷ lines) r h reads k = filed_stored lines r h.1 reads.1 k.1

  module _ {W : Type 0} ⦃fl : Floats F⦄ (mc : Machine F W) (wr : Writers F) (fw : Framework F) where
    -- No event that a run sent is lost for good. Where no line that the runner wrote has a line
    -- boundary in its text, and the decoder reads each as what was written, the replay of the text of
    -- the file returns a count, whatever the machine and the platform did meanwhile and whichever
    -- events came in, and then the platform, which knows the job, has every event that was sent.
    pub file_delivers :
        (package_id : ℕ) (snapshot : Text) (s : Work F W) (r : Session F E)
        → s.job_id ≡ id
        → s.lines ≡ []
        → s.sent ≡ []
        → s.seq ≡ 0
        → is_some (get_job id r.db.jobs) ≡ true
        → OneLine dump (main mc wr fw package_id snapshot s).1.lines
        → Reads d id dump (main mc wr fw package_id snapshot s).1.lines
        → let t = (main mc wr fw package_id snapshot s).1 in
          let replayed = replay_events_jsonl d now id (file_text dump t.lines) r in
          (n : ℕ) × (replayed.0 ≡ ok n)
          × All (λ i. is_stored id i replayed.1.db.events ≡ true) (on_wire t.sent)
    unfolding IsKnown replay_events_jsonl
    file_delivers package_id snapshot s r job empty unsent zero₁ known whole reads =
        let t = (main mc wr fw package_id snapshot s).1 in
        let labelled =
          main-Keeps mc wr fw (Labelled id) (steps-Labelled mc id) (finish-Labelled mc id)
            package_id snapshot s (job, subst (All (AboutJob id)) (sym empty) tt) in
        let numbered =
          main-Numbered mc wr fw package_id snapshot s (begins-Numbered mc s empty unsent zero₁) in
        let (n, e) = replay_returns t.lines 0 r reads known in
        let settled = replay_lines-Settled d id now (map dump t.lines) 0 r n e in
        let stored = filed_stored t.lines _ labelled.1 reads settled.1 in
        rw (splitlines-file_text dump t.lines whole)
          (n, e, subst (All (λ i. is_stored id i _ ≡ true)) (sym numbered.0) stored)
