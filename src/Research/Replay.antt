-- ===== src/Research/Replay.antt =====
-- Replaying a runner's file of events (signal_research/service.py, `replay_events_jsonl`).
use signal_lab.Common.{
  ℕ, ◌+◌, ◌≡◌, refl, sym, ap, ◌∙◌, Bool, true, false, inl, inr, Option, none, some, is_some,
  Bool-cases, Option-cases, Result-cases, List, [], ◌∷◌, ◌++◌, arith, Result, ok, err,
}
use mathlib.Core.Path.{subst}
use signal_lab.Common.Text.{Text, splitlines}
use signal_lab.Contracts.Events.{RunnerEvent}
use signal_lab.Research.Models.{ResearchJob, ResearchEvent}
use signal_lab.Research.Repo.{get_job, flush_job, append_event, is_stored}
use signal_lab.Research.Ports.{Decoders}
use signal_lab.Research.Session.{Session, Error, unknown_job}
use signal_lab.Research.Decode.{event_of_line}
use signal_lab.Research.Reports.{
  touched, ingest_found, ingest_event, replay_event, replay_lines, replay_events_jsonl,
}
use signal_lab.Research.Table.{is_some-get_job-flush, is_stored-append}

module _ {F : Type 0} where
  abbrev pub event_row : ℕ → RunnerEvent F → ResearchEvent F
  event_row id e = record { job_id = id; seq = e.seq; payload = e }

module _ {F E : Type 0} where
  -- The session after an event of a known job, with the events as given.
  abbrev pub ingested :
      ℕ → RunnerEvent F → ResearchJob F → List (ResearchEvent F) → Session F E → Session F E
  ingested now e j events s = record s {
    db = record (s.db) { jobs = flush_job (touched now e j) s.db.jobs; events = events };
  }

  -- An event is refused for an unknown job; for a known one it is a duplicate or a new row.
  pub ingest_event-cases :
      (now id : ℕ) (e : RunnerEvent F) (s : Session F E)
      (P : Result Error Bool → Session F E → Type 0)
      → (get_job id s.db.jobs ≡ none → P (err (unknown_job id)) s)
      → ((j : ResearchJob F)
          → get_job id s.db.jobs ≡ some j
          → is_stored id e.seq s.db.events ≡ true
          → P (ok true) (ingested now e j s.db.events s))
      → ((j : ResearchJob F)
          → get_job id s.db.jobs ≡ some j
          → is_stored id e.seq s.db.events ≡ false
          → P (ok false) (ingested now e j (s.db.events ++ event_row id e ∷ []) s))
      → P (ingest_event now id e s).0 (ingest_event now id e s).1
  unfolding ingest_event ingest_found append_event
  ingest_event-cases now id e s P unknown old new = elim (Option-cases (get_job id s.db.jobs)) [
    | inl missing ↦ rw missing (unknown missing)
    | inr (j, found) ↦ rw found (elim (Bool-cases (is_stored id e.seq s.db.events)) [
      | inl stored ↦ rw stored (old j found stored)
      | inr fresh ↦ rw fresh (new j found fresh)
    ])
  ]

module _ {F E J : Type 0} (d : Decoders F J) (id : ℕ) where
  -- A line that is no event of the job, or one that the table has already; the job is known.
  abbrev pub Settled : Result Text (Option (RunnerEvent F)) → Session F E → Type 0
  Settled (err x) s = ⊥
  Settled (ok none) s = Unit
  Settled (ok (some e)) s =
      (is_stored id e.seq s.db.events ≡ true) × (is_some (get_job id s.db.jobs) ≡ true)

  abbrev pub AllSettled : List Text → Session F E → Type 0
  AllSettled [] s = Unit
  AllSettled (line ∷ lines) s = Settled (event_of_line d id line) s × AllSettled lines s

  -- What later events leave of a session: nothing stored is lost and no job goes.
  abbrev pub Extends : Session F E → Session F E → Type 0
  Extends s t =
      ((seq : ℕ) → is_stored id seq s.db.events ≡ true → is_stored id seq t.db.events ≡ true)
      × (is_some (get_job id s.db.jobs) ≡ true → is_some (get_job id t.db.jobs) ≡ true)

  Settled-Extends :
      (r : Result Text (Option (RunnerEvent F))) (s t : Session F E)
      → Extends s t
      → Settled r s
      → Settled r t
  Settled-Extends (err x) s t x' h = h
  Settled-Extends (ok none) s t x h = tt
  Settled-Extends (ok (some e)) s t x h = (x.0 e.seq h.0, x.1 h.1)

  AllSettled-Extends :
      (lines : List Text) (s t : Session F E)
      → Extends s t
      → AllSettled lines s
      → AllSettled lines t
  AllSettled-Extends [] s t x h = tt
  AllSettled-Extends (line ∷ lines) s t x h =
      (Settled-Extends (event_of_line d id line) s t x h.0, AllSettled-Extends lines s t x h.1)

  ingest_event-Extends :
      (now : ℕ) (e : RunnerEvent F) (s : Session F E) → Extends s (ingest_event now id e s).1
  ingest_event-Extends now e s =
      ingest_event-cases now id e s (λ r t. Extends s t) (λ _. (λ seq h. h, λ h. h))
        (λ j _ _. (λ seq h. h, λ h. is_some-get_job-flush id (touched now e j) s.db.jobs ∙ h))
        (λ j _ _. (
          λ seq h. is_stored-append id seq s.db.events (event_row id e) ∙ ground arith,
          λ h. is_some-get_job-flush id (touched now e j) s.db.jobs ∙ h,
        ))

  pub replay_event-Extends :
      (now : ℕ) (r : Result Text (Option (RunnerEvent F))) (s : Session F E)
      → Extends s (replay_event d now id r s).1
  unfolding replay_event
  replay_event-Extends now (err x) s = (λ seq h. h, λ h. h)
  replay_event-Extends now (ok none) s = (λ seq h. h, λ h. h)
  replay_event-Extends now (ok (some e)) s = ingest_event-Extends now e s

  ingest_event-Settled :
      (now : ℕ) (e : RunnerEvent F) (s : Session F E) (b : Bool)
      → (ingest_event now id e s).0 ≡ ok b
      → Settled (ok (some e)) (ingest_event now id e s).1
  ingest_event-Settled now e s b =
      ingest_event-cases now id e s (λ r t. r ≡ ok b → Settled (ok (some e)) t) (λ _ h. absurd (cc))
        (λ j found stored _.
          (stored, is_some-get_job-flush id (touched now e j) s.db.jobs ∙ ap is_some found))
        (λ j found _ _. (
          is_stored-append id e.seq s.db.events (event_row id e) ∙ ground arith,
          is_some-get_job-flush id (touched now e j) s.db.jobs ∙ ap is_some found,
        ))

  replay_event-Settled :
      (now : ℕ) (r : Result Text (Option (RunnerEvent F))) (s : Session F E) (k : ℕ)
      → (replay_event d now id r s).0 ≡ ok k
      → Settled r (replay_event d now id r s).1
  unfolding replay_event
  replay_event-Settled now (err x) s k h = absurd (cc)
  replay_event-Settled now (ok none) s k h = tt
  replay_event-Settled now (ok (some e)) s k h = elim (Result-cases (ingest_event now id e s).0) [
    | inl (b, answer) ↦ ingest_event-Settled now e s b answer
    | inr (x, answer) ↦ absurd (ground arith)
  ]

  pub replay_lines-cons :
      (now : ℕ) (line : Text) (lines : List Text) (n m : ℕ) (s : Session F E)
      → (replay_event d now id (event_of_line d id line) s).0 ≡ ok m
      → replay_lines d now id (line ∷ lines) n s
        ≡ replay_lines d now id lines (n + m) (replay_event d now id (event_of_line d id line) s).1
  unfolding replay_lines
  replay_lines-cons now line lines n m s e = rw (e, replay_lines) refl

  -- Once a file has been replayed, each of its events is stored.
  pub replay_lines-Settled :
      (now : ℕ) (lines : List Text) (n : ℕ) (s : Session F E) (k : ℕ)
      → (replay_lines d now id lines n s).0 ≡ ok k
      → Extends s (replay_lines d now id lines n s).1
        × AllSettled lines (replay_lines d now id lines n s).1
  unfolding replay_lines
  replay_lines-Settled now [] n s k h = ((λ seq h. h, λ h. h), tt)
  replay_lines-Settled now (line ∷ lines) n s k h =
      let r = event_of_line d id line in
      let s' = (replay_event d now id r s).1 in
      elim (Result-cases (replay_event d now id r s).0) [
        | inr (x, e) ↦ absurd (ground arith)
        | inl (m, e) ↦
            let step = replay_lines-cons now line lines n m s e in
            let later =
              replay_lines-Settled now lines (n + m) s' k (ap (λ t. t.0) (sym step) ∙ h) in
            let first = replay_event-Extends now r s in
            subst (λ t. Extends s t.1 × AllSettled (line ∷ lines) t.1) (sym step)
              (
                (λ seq h. later.0.0 seq (first.0 seq h), λ h. later.0.1 (first.1 h)),
                (Settled-Extends r s' _ later.0 (replay_event-Settled now r s m e), later.1),
              )
      ]

  ingest_event_again :
      (now : ℕ) (e : RunnerEvent F) (s : Session F E)
      → Settled (ok (some e)) s
      → ((ingest_event now id e s).0 ≡ ok true)
        × ((ingest_event now id e s).1.db.events ≡ s.db.events)
  ingest_event_again now e s h =
      ingest_event-cases now id e s (λ r t. (r ≡ ok true) × (t.db.events ≡ s.db.events))
        (λ missing. absurd (ground (arith, h.1, missing))) (λ j _ _. (refl, refl))
        (λ j _ fresh. absurd (ground (arith, h.0, fresh)))

  replay_event_again :
      (now : ℕ) (r : Result Text (Option (RunnerEvent F))) (s : Session F E)
      → Settled r s
      → ((replay_event d now id r s).0 ≡ ok 0)
        × ((replay_event d now id r s).1.db.events ≡ s.db.events)
  unfolding replay_event
  replay_event_again now (err x) s h = absurd h
  replay_event_again now (ok none) s h = (refl, refl)
  replay_event_again now (ok (some e)) s h =
      let again = ingest_event_again now e s h in (rw (again.0, replay_event) refl, again.1)

  replay_lines_again :
      (now : ℕ) (lines : List Text) (n : ℕ) (s : Session F E)
      → AllSettled lines s
      → ((replay_lines d now id lines n s).0 ≡ ok n)
        × ((replay_lines d now id lines n s).1.db.events ≡ s.db.events)
  unfolding replay_lines
  replay_lines_again now [] n s h = (refl, refl)
  replay_lines_again now (line ∷ lines) n s h =
      let r = event_of_line d id line in
      let s' = (replay_event d now id r s).1 in
      let once = replay_event_again now r s h.0 in
      let rest =
        replay_lines_again now lines (n + 0) s'
          (AllSettled-Extends lines s s' (replay_event-Extends now r s) h.1) in
      let step = replay_lines-cons now line lines n 0 s once.0 in
      (ap (λ t. t.0) step ∙ rest.0 ∙ ground arith, ap (λ t. t.1.db.events) step ∙ rest.1 ∙ once.1)

  -- A file that was replayed to its end can be replayed again, at any time, with nothing counted
  -- and no event added.
  pub replay_idempotent :
      (now later : ℕ) (text : Text) (s : Session F E) (n : ℕ)
      → (replay_events_jsonl d now id text s).0 ≡ ok n
      → let s' = (replay_events_jsonl d now id text s).1 in
        ((replay_events_jsonl d later id text s').0 ≡ ok 0)
        × ((replay_events_jsonl d later id text s').1.db.events ≡ s'.db.events)
  unfolding replay_events_jsonl
  replay_idempotent now later text s n h =
      replay_lines_again later (splitlines text) 0 _
        (replay_lines-Settled now (splitlines text) 0 s n h).1
