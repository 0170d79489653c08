-- ===== src/Research/Probe.antt =====
-- packages/research/src/signal_research/service.py: `probe_lost_jobs`. The rows of the loop are the
-- rows of the session, so each round reads the row as it stands.
use signal_lab.Common.{
  ℕ, ◌+◌, Bool, true, false, ltb, Option, none, some, List, [], ◌∷◌, if◌then◌else◌, Result, ok, err,
}
use signal_lab.Common.Text.{Text, codes, splitlines}
use signal_lab.Research.Models.{lost, ResearchJob, Db}
use signal_lab.Research.Repo.{get_job, list_running_jobs, set_status}
use signal_lab.Research.Ports.{Provisioner, Provisioners, Decoders}
use signal_lab.Research.Session.{Session, Error, save}
use signal_lab.Research.Decode.{event_of_line}
use signal_lab.Research.Jobs.{provisioner_for_runtime}
use signal_lab.Research.Reports.{replay_events_jsonl}

-- `hb is None or (now - hb) > timeout`
abbrev pub is_stale : ℕ → ℕ → Option ℕ → Bool
is_stale now timeout none = true
is_stale now timeout (some hb) = ltb (hb + timeout) now

abbrev pub heartbeat_of : {F : Type 0} → Option (ResearchJob F) → Option ℕ
heartbeat_of none = none
heartbeat_of (some j) = j.last_heartbeat_at

module _ {F E J : Type 0} (d : Decoders F J) (ps : Provisioners F E) (now timeout : ℕ) where
  -- The end of a round: a runner that is not alive makes its job lost. The flag is whether it did;
  -- what the question raises is not caught.
  unfoldable pub check_found :
      Provisioner F E → Option (ResearchJob F) → Session F E → Result Text Bool × Session F E
  check_found p none s = (ok false, s)
  check_found p (some j) s =
      let (answer, world) = p.is_alive j.runtime s.world in
      let s' : Session F E = record s { world = world } in
      let gone = save (set_status now lost (codes "heartbeat timeout") true j) s' in
      elim answer [ err e ↦ (err e, s') | ok true ↦ (ok false, s') | ok false ↦ (ok true, gone) ]

  unfoldable pub check_alive : Provisioner F E → ℕ → Session F E → Result Text Bool × Session F E
  check_alive p id s = check_found p (get_job id s.db.jobs) s

  -- After the replay: a job that has now been heard of is left alone.
  unfoldable pub after_replay :
      Provisioner F E → ℕ → Result Error ℕ → Session F E → Result Text Bool × Session F E
  unfolding check_alive
  after_replay p id (err e) s = check_alive p id s
  after_replay p id (ok n) s =
      if is_stale now timeout (heartbeat_of (get_job id s.db.jobs))
      then check_alive p id s
      else (ok false, s)

  unfoldable pub after_fetch :
      Provisioner F E → ℕ → Result Text (Option Text) → Session F E → Result Text Bool × Session F E
  unfolding check_alive
  after_fetch p id (ok (some (c ∷ text))) s =
      let (answer, s') = replay_events_jsonl d now id (c ∷ text) s in after_replay p id answer s'
  after_fetch p id _ s = check_alive p id s

  unfoldable pub probe_found :
      ℕ → Option (ResearchJob F) → Session F E → Result Text Bool × Session F E
  probe_found id none s = (ok false, s)
  probe_found id (some j) s =
      if is_stale now timeout j.last_heartbeat_at
      then (let p = provisioner_for_runtime ps j in
          let (answer, world) = p.fetch_events_jsonl j.runtime s.world in
          after_fetch p id answer (record s { world = world }))
      else (ok false, s)

  unfoldable pub probe_one : ℕ → Session F E → Result Text Bool × Session F E
  probe_one id s = probe_found id (get_job id s.db.jobs) s

  -- Whether a replay takes in an event, and so commits what was written before it in the session.
  unfoldable pub ingests : ℕ → List Text → Bool
  ingests id [] = false
  ingests id (line ∷ lines) =
      let rest = ingests id lines in
      elim (event_of_line d id line) [ err e ↦ false | ok none ↦ rest | ok (some e) ↦ true ]

  unfoldable pub saved_fetch : ℕ → Result Text (Option Text) → Db F → Session F E → Db F
  saved_fetch id (ok (some (c ∷ text))) saved s =
      if ingests id (splitlines (c ∷ text))
      then (replay_events_jsonl d now id (c ∷ text) s).1.db
      else saved
  saved_fetch id _ saved s = saved

  unfoldable pub saved_found : ℕ → Option (ResearchJob F) → Db F → Session F E → Db F
  saved_found id none saved s = saved
  saved_found id (some j) saved s =
      if is_stale now timeout j.last_heartbeat_at
      then (let p = provisioner_for_runtime ps j in
          let (answer, world) = p.fetch_events_jsonl j.runtime s.world in
          saved_fetch id answer saved (record s { world = world }))
      else saved

  -- The tables as the last commit of a round left them, `saved` being those of the one before.
  unfoldable pub saved_one : ℕ → Db F → Session F E → Db F
  saved_one id saved s = saved_found id (get_job id s.db.jobs) saved s

  abbrev pub marking : ℕ → Bool → Result Text (List ℕ) → Result Text (List ℕ)
  marking id is_lost (err e) = err e
  marking id is_lost (ok marked) = ok (if is_lost then id ∷ marked else marked)

  -- The ids of the jobs that became lost. An exception ends the loop, and the session with it: the
  -- tables are then those of the last commit.
  unfoldable pub probe_all :
      List (ResearchJob F) → Db F → Session F E → Result Text (List ℕ) × Session F E
  probe_all [] saved s = (ok [], s)
  probe_all (j ∷ js) saved s =
      let (answer, s') = probe_one j.id s in
      let saved' = saved_one j.id saved s in
      elim answer [
        | err e ↦ (err e, record s' { db = saved' })
        | ok is_lost ↦ let (r, s'') = probe_all js saved' s' in (marking j.id is_lost r, s'')
      ]

  unfoldable pub probe_lost_jobs : Session F E → Result Text (List ℕ) × Session F E
  unfolding list_running_jobs
  probe_lost_jobs s = probe_all (list_running_jobs s.db.jobs) s.db s
