-- ===== src/Research/Course.antt =====
-- The course of a job over any calls (signal_research/service.py).
use signal_lab.Common.{
  ℕ, ◌==◌, ◌≡◌, refl, sym, ap, ◌∙◌, Bool, true, false, inl, inr, Option, none, some, Bool-cases,
  Option-cases, List, arith, Result, ok, err,
}
use mathlib.Core.Path.{subst}
use signal_lab.Common.Text.{Text, codes}
use signal_lab.Common.Float.{Floats}
use signal_lab.Contracts.Events.{RunnerEvent, CompletionReport, verify_signature}
use signal_lab.Contracts.Package.{Manifest}
use signal_lab.Research.Models.{lost, Db, ResearchJob, VerifiedMetrics}
use signal_lab.Research.Repo.{insert_strategy, get_job, flush_job, set_status}
use signal_lab.Research.Ports.{Provisioners, MarketBarsPort, Decoders, ResearchSettings}
use signal_lab.Research.Session.{Session, save}
use signal_lab.Research.Reports.{
  completed, complete_found, complete_for, handle_complete, handle_event, ingest_for,
}
use signal_lab.Research.Probe.{probe_one, saved_one}
use signal_lab.Research.Validator.{PackageError, load_package, VerifyError, Statistics}
use signal_lab.Research.Strategies.{
  store_strategy, import_package, artifact_found, handle_artifact, new_strategy, is_forged,
  write_artifact,
}
use signal_lab.Research.Table.{id-get_job, get_job-flush}
use signal_lab.Research.Moves.{
  Drift, Keeps, Keeps-refl, Keeps-trans, Keeps-ingested, IsWatched, Drift-IsWatched, Drift-lost,
  Related, Related-refl, Related-flush,
}
use signal_lab.Research.Replay.{ingested}
use signal_lab.Research.Induct.{ingest_event-induct, probe_one-induct, saved_one-induct}
use signal_lab.Research.Life.{Move, Move-refl, Turns, Turns-refl, Turns-write, completed-Move}

module _ {F E J : Type 0} (k : ℕ) (d : Decoders F J) (ps : Provisioners F E) where
  ingest_for-Keeps :
      (now id : ℕ) (m : Option (RunnerEvent F)) (s : Session F E)
      → Keeps k s (ingest_for now id m s).1
  unfolding ingest_for
  ingest_for-Keeps now id none s = Keeps-refl k s
  ingest_for-Keeps now id (some e) s = elim (Bool-cases (e.job_id == id)) [
    | inr other ↦ rw other (Keeps-refl k s)
    | inl own ↦ rw own (
        ingest_event-induct now id (λ t. Keeps k s t)
          (λ e j events t _ found h.
            Keeps-trans k s t (ingested now e j events t) h
              (Keeps-ingested k now id e j events t found))
          e s (Keeps-refl k s))
  ]

  pub handle_event-Keeps :
      (now id : ℕ) (body signature secret : Text) (s : Session F E)
      → Keeps k s (handle_event d now id body signature secret s).1
  unfolding handle_event
  handle_event-Keeps now id body signature secret s =
      elim (Bool-cases (verify_signature d.hmac secret body signature)) [
        | inr forged ↦ rw forged (Keeps-refl k s)
        | inl signed ↦ rw signed (ingest_for-Keeps now id (d.event_of_body body) s)
      ]

  -- A row written by a report about the job `id`.
  report-Turns :
      (id : ℕ) (old j : ResearchJob F) (rows : List (ResearchJob F))
      → get_job id rows ≡ some old
      → j.id ≡ old.id
      → Move true old j
      → Related (Move (id == k)) (get_job k rows) (get_job k (flush_job j rows))
  report-Turns id old j rows found e h =
      let own : j.id ≡ id = e ∙ id-get_job id old rows found in
      let at_j : get_job j.id rows ≡ some old = ap (λ m. get_job m rows) own ∙ found in
      elim (Bool-cases (id == k)) [
        | inl here ↦ rw here (Turns-write k true old j rows _ at_j h refl)
        | inr away ↦ rw away (
            subst (λ m. Related (Move false) (get_job k rows) m)
              (sym (get_job-flush k j old rows at_j ∙ ground (arith, own, away)))
              (Related-refl (Move false) (Move-refl false) (get_job k rows)))
      ]

  complete_found-Turns :
      (wanted : Bool) (now id : ℕ) (r : CompletionReport F) (s : Session F E)
      → Turns k (id == k) s (complete_found ps wanted now id r (get_job id s.db.jobs) s).1
  unfolding complete_found completed set_status
  complete_found-Turns wanted now id r s = elim (Option-cases (get_job id s.db.jobs)) [
    | inl missing ↦ rw missing (Turns-refl k (id == k) s)
    | inr (j, found) ↦
        let j' = completed now r s.db.strategies j in
        subst (λ m. Turns k (id == k) s (complete_found ps wanted now id r m s).1) (sym found)
          (report-Turns id j j' s.db.jobs found (ground arith)
            (completed-Move now r s.db.strategies j))
  ]

  pub handle_complete-Turns :
      (st : ResearchSettings F) (now id : ℕ) (body signature secret : Text) (s : Session F E)
      → Turns k (id == k) s (handle_complete d ps st now id body signature secret s).1
  unfolding handle_complete
  handle_complete-Turns st now id body signature secret s =
      elim (Bool-cases (verify_signature d.hmac secret body signature)) [
        | inr forged ↦ rw forged (Turns-refl k (id == k) s)
        | inl signed ↦ rw signed (for_report (d.report_of_body body))
      ]
    where
      for_report :
          (m : Option (CompletionReport F))
          → Turns k (id == k) s (complete_for ps st.cleanup_remote_on_complete now id m s).1
      for_report none = unfold complete_for in Turns-refl k (id == k) s
      for_report (some r) =
          unfold complete_for in
          elim (Bool-cases (r.job_id == id)) [
            | inr other ↦ rw other (Turns-refl k (id == k) s)
            | inl own ↦ rw own (complete_found-Turns st.cleanup_remote_on_complete now id r s)
          ]

  pub probe_one-Keeps :
      (now timeout id : ℕ) (s : Session F E)
      → IsWatched (get_job id s.db.jobs)
      → Keeps k s (probe_one d ps now timeout id s).1
  probe_one-Keeps now timeout id s w =
      probe_one-induct now id (λ t. Keeps k s t × IsWatched (get_job id t.db.jobs))
        (λ e j events t _ found h. (
          Keeps-trans k s t (ingested now e j events t) h.0
              (Keeps-ingested k now id e j events t found),
          Drift-IsWatched (get_job id t.db.jobs) _ (Keeps-ingested id now id e j events t found)
              h.1,
        ))
        d timeout (λ w t h. h) (λ b t. Keeps k s t) (λ t h. h.0) (λ e t h. h.0)
        (λ j t found h.
          unfold set_status in
          Keeps-trans k s t (save (set_status now lost (codes "heartbeat timeout") true j) t) h.0 (
            Related-flush Drift (λ i. (inl refl, refl)) k j
              (set_status now lost (codes "heartbeat timeout") true j) t.db.jobs
              (ap (λ m. get_job m t.db.jobs) (id-get_job id j t.db.jobs found) ∙ found)
              (Drift-lost now (codes "heartbeat timeout") j (subst IsWatched found h.1))))
        ps s (Keeps-refl k s, w)

  pub saved_one-Keeps :
      (now timeout id : ℕ) (s₀ s : Session F E) (saved : Db F)
      → IsWatched (get_job id s.db.jobs)
      → Keeps k s₀ s
      → Keeps k s₀ (record s₀ { db = saved })
      → Keeps k s₀ (record s₀ { db = saved_one d ps now timeout id saved s })
  saved_one-Keeps now timeout id s₀ s saved w h r =
      saved_one-induct now id (λ t. Keeps k s₀ t × IsWatched (get_job id t.db.jobs))
        (λ e j events t _ found h. (
          Keeps-trans k s₀ t (ingested now e j events t) h.0
              (Keeps-ingested k now id e j events t found),
          Drift-IsWatched (get_job id t.db.jobs) _ (Keeps-ingested id now id e j events t found)
              h.1,
        ))
        d timeout ps (λ db. Keeps k s₀ (record s₀ { db = db })) (λ w t h. h) (λ t h. h.0) saved s r
        (h, w)

  store_strategy-Turns :
      ⦃fl : Floats F⦄ (market : MarketBarsPort F) (stats : Statistics F) (new now id : ℕ)
      (j : ResearchJob F) (m : Manifest F) (r : Result VerifyError (VerifiedMetrics F))
      (s : Session F E)
      → get_job id s.db.jobs ≡ some j
      → Turns k false s (store_strategy d market stats new now j m r s).1
  unfolding store_strategy
  store_strategy-Turns market stats new now id j m (err e) s found = Turns-refl k false s
  store_strategy-Turns market stats new now id j m (ok v) s found =
      let strat = (insert_strategy (new_strategy new now j.id m v) s.db.strategies).0 in
      Turns-write k false j (record j { strategy_id = some strat.id }) s.db.jobs _
        (ap (λ n. get_job n s.db.jobs) (id-get_job id j s.db.jobs found) ∙ found)
        (inl (inl refl), refl) refl

  pub import_package-Turns :
      ⦃fl : Floats F⦄ (market : MarketBarsPort F) (stats : Statistics F) (new now today id : ℕ)
      (j : ResearchJob F) (r : Result PackageError (Manifest F)) (s : Session F E)
      → get_job id s.db.jobs ≡ some j
      → Turns k false s (import_package d market stats new now today j r s).1
  unfolding import_package
  import_package-Turns market stats new now today id j (err e) s found = Turns-refl k false s
  import_package-Turns market stats new now today id j (ok m) s found =
      store_strategy-Turns market stats new now id j m _ s found

  pub handle_artifact-Turns :
      ⦃fl : Floats F⦄ (market : MarketBarsPort F) (stats : Statistics F) (new now today id : ℕ)
      (bytes : Text) (signature : Option Text) (secret : Text) (s : Session F E)
      → Turns k false s (handle_artifact d market stats new now today id bytes signature secret s).1
  unfolding handle_artifact artifact_found
  handle_artifact-Turns market stats new now today id bytes signature secret s =
      elim (Bool-cases (is_forged signature (verify_signature d.hmac secret bytes))) [
        | inl forged ↦ rw forged (Turns-refl k false s)
        | inr signed ↦ rw signed (elim (Option-cases (get_job id s.db.jobs)) [
          | inl missing ↦ rw missing (Turns-refl k false s)
          | inr (j, found) ↦ rw found (
              import_package-Turns market stats new now today id j (load_package d bytes)
                (record s { artifacts = write_artifact id bytes s.artifacts }) found)
        ])
      ]
