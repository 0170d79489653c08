-- ===== src/Research/Induct.antt =====
-- Rules for the loops of signal_research/service.py: what the writes of a replay keep, a replay
-- keeps, and a round of `probe_lost_jobs` is such a replay and at most one loss.
use signal_lab.Common.{
  ap, ◌∙◌, if◌then◌else◌, ℕ, ◌+◌, ◌⊎◌, ◌++◌, ◌≡◌, refl, sym, Bool, true, false, inl, inr, Option,
  none, some, Bool-cases, Option-cases, Result-cases, List, [], ◌∷◌, Result, ok, err,
}
use mathlib.Core.Path.{subst}
use signal_lab.Common.Text.{Text, codes, splitlines}
use signal_lab.Contracts.Events.{RunnerEvent}
use signal_lab.Research.Models.{lost, ResearchJob, ResearchEvent, Db}
use signal_lab.Research.Repo.{is_stored, get_job, set_status}
use signal_lab.Research.Ports.{Provisioner, Provisioners, Decoders}
use signal_lab.Research.Session.{Session, Error, save}
use signal_lab.Research.Decode.{event_of_line}
use signal_lab.Research.Jobs.{provisioner_for_runtime}
use signal_lab.Research.Reports.{ingest_event, replay_event, replay_lines, replay_events_jsonl}
use signal_lab.Research.Probe.{
  is_stale, check_found, check_alive, after_replay, after_fetch, probe_found, probe_one,
  heartbeat_of, ingests, saved_fetch, saved_found, saved_one, marking, probe_all,
}
use signal_lab.Research.Replay.{event_row, ingested, ingest_event-cases, replay_lines-cons}

err_ok : {A : Type 0} {e : Text} {a : A} → err e ≡ ok a → ⊥
err_ok h = cc

abbrev pub Adds :
    {F : Type 0} → ℕ → RunnerEvent F → List (ResearchEvent F) → List (ResearchEvent F) → Type 0
Adds id e rows events =
    (events ≡ rows) ⊎ ((is_stored id e.seq rows ≡ false) × (events ≡ rows ++ event_row id e ∷ []))

module _ {F E : Type 0} (now id : ℕ) (P : Session F E → Type 0) where
  -- Kept by the write of an event of the job, which adds its row unless that is stored.
  abbrev pub ByEvents : Type 0
  ByEvents =
      (e : RunnerEvent F) (j : ResearchJob F) (events : List (ResearchEvent F)) (s : Session F E)
      → Adds id e s.db.events events
      → get_job id s.db.jobs ≡ some j
      → P s
      → P (ingested now e j events s)

  module _ (step : ByEvents) where
    pub ingest_event-induct :
        (e : RunnerEvent F) (s : Session F E) → P s → P (ingest_event now id e s).1
    ingest_event-induct e s h =
        ingest_event-cases now id e s (λ r t. P t) (λ _. h)
          (λ j found _. step e j _ s (inl refl) found h)
          (λ j found fresh. step e j _ s (inr (fresh, refl)) found h)

    module _ {J : Type 0} (d : Decoders F J) where
      replay_event-induct :
          (r : Result Text (Option (RunnerEvent F))) (s : Session F E)
          → P s
          → P (replay_event d now id r s).1
      unfolding replay_event
      replay_event-induct (err x) s h = h
      replay_event-induct (ok none) s h = h
      replay_event-induct (ok (some e)) s h = ingest_event-induct e s h

      replay_lines-induct :
          (lines : List Text) (n : ℕ) (s : Session F E)
          → P s
          → P (replay_lines d now id lines n s).1
      unfolding replay_lines
      replay_lines-induct [] n s h = h
      replay_lines-induct (line ∷ lines) n s h =
          let r = event_of_line d id line in
          let s' = (replay_event d now id r s).1 in
          let first = replay_event-induct r s h in
          elim (Result-cases (replay_event d now id r s).0) [
            | inr (x, e) ↦ rw (e, replay_lines) first
            | inl (m, e) ↦
                subst (λ t. P t.1) (sym (replay_lines-cons d id now line lines n m s e))
                  (replay_lines-induct lines (n + m) s' first)
          ]

      pub replay_events_jsonl-induct :
          (text : Text) (s : Session F E) → P s → P (replay_events_jsonl d now id text s).1
      unfolding replay_events_jsonl
      replay_events_jsonl-induct text s h = replay_lines-induct (splitlines text) 0 s h

      module _ (timeout : ℕ) (moved : (w : E) (s : Session F E) → P s → P (record s { world = w }))
          (Q : Result Text Bool → Session F E → Type 0)
          (kept : (s : Session F E) → P s → Q (ok false) s)
          (threw : (e : Text) (s : Session F E) → P s → Q (err e) s)
          (ended : (j : ResearchJob F) (s : Session F E)
            → get_job id s.db.jobs ≡ some j
            → P s
            → Q (ok true) (save (set_status now lost (codes "heartbeat timeout") true j) s)) where
        module _ (ps : Provisioners F E) where
          check_alive-induct :
              (p : Provisioner F E) (s : Session F E)
              → P s
              → let r = check_alive d ps now timeout p id s in Q r.0 r.1
          unfolding check_alive check_found
          check_alive-induct p s h = elim (Option-cases (get_job id s.db.jobs)) [
            | inl missing ↦ rw missing (kept s h)
            | inr (j, found) ↦
                let (answer, w) = p.is_alive j.runtime s.world in
                let t : Session F E = record s { world = w } in
                let h' = moved w s h in rw found (at answer t j found h')
          ]
            where
              at :
                  (answer : Result Text Bool) (t : Session F E) (j : ResearchJob F)
                  → get_job id t.db.jobs ≡ some j
                  → P t
                  → let gone = save (set_status now lost (codes "heartbeat timeout") true j) t in
                    let r = elim answer as (λ _. Result Text Bool × Session F E) [
                      | err e ↦ (err e, t)
                      | ok true ↦ (ok false, t)
                      | ok false ↦ (ok true, gone)
                    ] in
                    Q r.0 r.1
              at (err e) t j found h = threw e t h
              at (ok true) t j found h = kept t h
              at (ok false) t j found h = ended j t found h

          after_replay-induct :
              (p : Provisioner F E) (answer : Result Error ℕ) (s : Session F E)
              → P s
              → let r = after_replay d ps now timeout p id answer s in Q r.0 r.1
          unfolding after_replay
          after_replay-induct p (err e) s h = check_alive-induct p s h
          after_replay-induct p (ok n) s h =
              elim (Bool-cases (is_stale now timeout (heartbeat_of (get_job id s.db.jobs)))) [
                | inl stale ↦ rw stale (check_alive-induct p s h)
                | inr fresh ↦ rw fresh (kept s h)
              ]

          after_fetch-induct :
              (p : Provisioner F E) (answer : Result Text (Option Text)) (s : Session F E)
              → P s
              → let r = after_fetch d ps now timeout p id answer s in Q r.0 r.1
          unfolding after_fetch
          after_fetch-induct p (err e) s h = check_alive-induct p s h
          after_fetch-induct p (ok none) s h = check_alive-induct p s h
          after_fetch-induct p (ok (some [])) s h = check_alive-induct p s h
          after_fetch-induct p (ok (some (c ∷ text))) s h =
              after_replay-induct p (replay_events_jsonl d now id (c ∷ text) s).0 _
                (replay_events_jsonl-induct (c ∷ text) s h)

          pub probe_one-induct :
              (s : Session F E) → P s → let r = probe_one d ps now timeout id s in Q r.0 r.1
          unfolding probe_one probe_found
          probe_one-induct s h = elim (Option-cases (get_job id s.db.jobs)) [
            | inl missing ↦ rw missing (kept s h)
            | inr (j, found) ↦
                let p = provisioner_for_runtime ps j in
                let (answer, w) = p.fetch_events_jsonl j.runtime s.world in
                let t : Session F E = record s { world = w } in
                rw found (elim (Bool-cases (is_stale now timeout j.last_heartbeat_at)) [
                  | inl stale ↦ rw stale (after_fetch-induct p answer t (moved w s h))
                  | inr fresh ↦ rw fresh (kept s h)
                ])
          ]

      -- What holds of the tables after each replay, and of those that were saved before the round.
      pub saved_one-induct :
          (timeout : ℕ) (ps : Provisioners F E) (R : Db F → Type 0)
          → ((w : E) (s : Session F E) → P s → P (record s { world = w }))
          → ((s : Session F E) → P s → R s.db)
          → (saved : Db F) (s : Session F E) → R saved
          → P s
          → R (saved_one d ps now timeout id saved s)
      unfolding saved_one saved_found saved_fetch
      saved_one-induct timeout ps R moved at_end saved s r h =
          elim (Option-cases (get_job id s.db.jobs)) [
            | inl missing ↦ rw missing r
            | inr (j, found) ↦
                let p = provisioner_for_runtime ps j in
                let (answer, w) = p.fetch_events_jsonl j.runtime s.world in
                rw found (elim (Bool-cases (is_stale now timeout j.last_heartbeat_at)) [
                  | inl stale ↦ rw stale (fetched answer (record s { world = w }) (moved w s h))
                  | inr fresh ↦ rw fresh r
                ])
          ]
        where
          fetched :
              (answer : Result Text (Option Text)) (t : Session F E)
              → P t
              → R (saved_fetch d ps now timeout id answer saved t)
          fetched (err e) t h = r
          fetched (ok none) t h = r
          fetched (ok (some [])) t h = r
          fetched (ok (some (c ∷ text))) t h =
              elim (Bool-cases (ingests d ps now timeout id (splitlines (c ∷ text)))) [
                | inl yes₁ ↦ rw yes₁ (at_end _ (replay_events_jsonl-induct (c ∷ text) t h))
                | inr no₁ ↦ rw no₁ r
              ]

module _ {F E J : Type 0} (d : Decoders F J) (ps : Provisioners F E) (now timeout : ℕ) where
  -- A round over a job that has been heard of lately does nothing.
  pub probe_one_fresh :
      (id : ℕ) (j : ResearchJob F) (s : Session F E)
      → get_job id s.db.jobs ≡ some j
      → is_stale now timeout j.last_heartbeat_at ≡ false
      → probe_one d ps now timeout id s ≡ (ok false, s)
  unfolding probe_one probe_found
  probe_one_fresh id j s found fresh = rw found (rw fresh refl)

  abbrev to_marking :
      ResearchJob F
      → List (ResearchJob F)
      → Db F
      → Session F E
      → Result Text Bool
      → Result Text (List ℕ) × Session F E
  to_marking j js saved s answer =
      let s' = (probe_one d ps now timeout j.id s).1 in
      let saved' = saved_one d ps now timeout j.id saved s in
      elim answer [
        | err e ↦ (err e, record s' { db = saved' })
        | ok gone ↦
            let (r, s'') = probe_all d ps now timeout js saved' s' in
            (marking d ps now timeout j.id gone r, s'')
      ]

  -- A loop that went through, and what is left of it after its first round.
  pub record WentOn (j : ResearchJob F) (js : List (ResearchJob F)) (saved : Db F) (s : Session F E)
      (marked : List ℕ) : Type 0 where
    pub gone : Bool
    pub more : List ℕ
    pub first : (probe_one d ps now timeout j.id s).0 ≡ ok gone
    pub rest :
        (probe_all d ps now timeout js
          (saved_one d ps now timeout j.id saved s)
          (probe_one d ps now timeout j.id s).1).0
        ≡ ok more
    pub is_marked : marked ≡ (if gone then j.id ∷ more else more)
    pub ends :
        (probe_all d ps now timeout (j ∷ js) saved s).1
        ≡ (probe_all d ps now timeout js
            (saved_one d ps now timeout j.id saved s)
            (probe_one d ps now timeout j.id s).1).1

  marking-ok :
      (id : ℕ) (gone : Bool) (r : Result Text (List ℕ)) (marked : List ℕ)
      → marking d ps now timeout id gone r ≡ ok marked
      → (more : List ℕ) × (r ≡ ok more) × (marked ≡ (if gone then id ∷ more else more))
  marking-ok id gone (err e) marked h = absurd (cc)
  marking-ok id gone (ok more) marked h =
      (more, refl, ap (λ r. elim r [ ok x ↦ x | err e ↦ marked ]) (sym h))

  pub probe_all-WentOn :
      (j : ResearchJob F) (js : List (ResearchJob F)) (saved : Db F) (s : Session F E)
      (marked : List ℕ)
      → (probe_all d ps now timeout (j ∷ js) saved s).0 ≡ ok marked
      → WentOn j js saved s marked
  unfolding probe_all
  probe_all-WentOn j js saved s marked h =
      elim (Result-cases (probe_one d ps now timeout j.id s).0) [
        | inr (e, threw) ↦ absurd (err_ok (sym (ap (λ a. (to_marking j js saved s a).0) threw) ∙ h))
        | inl (b, went) ↦
            let whole : probe_all d ps now timeout (j ∷ js) saved s
                ≡ to_marking j js saved s (ok b) =
              ap (to_marking j js saved s) went in
            let (more, rest, is_marked) =
              marking-ok j.id b _ marked (sym (ap (λ p. p.0) whole) ∙ h) in
            record {
              gone = b;
              more = more;
              first = went;
              rest = rest;
              is_marked = is_marked;
              ends = ap (λ p. p.1) whole;
            }
      ]
