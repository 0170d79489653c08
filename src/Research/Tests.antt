-- ===== src/Research/Tests.antt =====
-- Runs of the research service over ten-thousandths, and the theorems at such inputs.
use signal_lab.Common.{
  ℕ, ◌+◌, ◌<◌, ◌==◌, ◌≡◌, ◌≢◌, ◌⊎◌, refl, Bool, true, false, inl, inr, Option, none, some, List, [],
  ◌∷◌, arith, All, Distinct, Result, ok, err, if◌then◌else◌,
}
use signal_lab.Common.Int.{ℤ, pos}
use signal_lab.Common.Text.{Text, codes}
use signal_lab.Common.Fixed.{fixed}
use signal_lab.Contracts.Events.{RunnerEvent, heartbeat, CompletionStatus}
use signal_lab.Contracts.Job.{JobSpec, local_docker, http_put}
use signal_lab.Research.Models.{JobStatus, running, succeeded, ResearchJob}
use signal_lab.Research.Repo.{get_job, is_open}
use signal_lab.Research.Ports.{
  Provisioner, Provisioners, MarketBarsPort, Decoders, ResearchSettings,
}
use signal_lab.Research.Session.{Session}
use signal_lab.Research.Create.{JobRequest, create_job, build_spec, new_job}
use signal_lab.Research.Reports.{replay_events_jsonl}
use signal_lab.Research.Probe.{probe_lost_jobs, is_stale}
use signal_lab.Research.Validator.{Statistics}
use signal_lab.Research.Calls.{Call, handle}
use signal_lab.Research.Calls
use signal_lab.Research.Specs.{IsSpec, build_spec-IsSpec}
use signal_lab.Research.Replay.{replay_idempotent}
use signal_lab.Research.Probing.{WasSilent, IsLost, probe_marks_silent}
use signal_lab.Research.Fate.{Goes, job_moves}
use signal_lab.Research.Unique.{IsSound}
use signal_lab.Research.Reach.{Runs, Runs-IsSound}
use signal_lab.Research.Reach
use signal_lab.Research.Finished.{finished_stays}

-- Runners that start at once and never answer a probe.
abbrev runner : Provisioner ℤ ℕ
runner = record {
  start = λ id spec w. (ok ((codes "type", codes "local_process") ∷ []), w + 1);
  is_alive = λ runtime w. (ok false, w);
  cleanup = λ runtime w. (ok tt, w);
  fetch_events_jsonl = λ runtime w. (ok none, w);
}

abbrev runners : Provisioners ℤ ℕ
runners = record { local_process = λ producer. runner; docker = runner; remote = runner }

abbrev market : MarketBarsPort ℤ
market = record {
  get_qfq_bars = λ symbol start end_. [];
  list_universe_symbols = λ universe limit. [];
}

abbrev stats : Statistics ℤ
stats = record {
  sample_ic = λ e bars. ok none;
  last_value = λ e bars. ok none;
  check_syntax = λ e. ok tt;
  round6 = λ x. x;
}

-- A line is an event of the job 1 whose number is the length of the line.
abbrev beat : ℕ → RunnerEvent ℤ
beat seq = record {
  job_id = 1;
  type = heartbeat;
  ts = 1000;
  seq = seq;
  loop = some (pos 2);
  best_ic = none;
  llm_cost_usd = none;
  message = none;
}

abbrev size : Text → ℕ
size [] = 0
size (c ∷ s) = size s + 1

-- Every body is a report of success about the job 1, and a signature is the body itself.
abbrev decoders : Decoders ℤ ℕ
decoders = record {
  hmac = λ secret body. body;
  event_of_body = λ body. some (beat (size body));
  report_of_body = λ body. some (record {
    job_id = 1;
    status = CompletionStatus.succeeded;
    package_id = none;
    total_loops = pos 3;
    total_llm_cost_usd = pos 0;
  });
  json_loads = λ line. some (size line);
  has_key = λ key v. ok (if size key == 11 then false else if size key == 9 then false else true);
  is_object = λ v. true;
  event_of_json = λ v. some (beat v);
  read_manifest = λ bytes. ok none;
  manifest_of_json = λ v. none;
}

abbrev settings : ResearchSettings ℤ
settings = record {
  callback_base_host = codes "http://127.0.0.1:8000/";
  hmac_secret_env = codes "RUNNER_CALLBACK_SECRET";
  llm_api_key_env = codes "LLM_API_KEY";
  llm_provider = codes "deepseek";
  llm_model = codes "deepseek-chat";
  llm_base_url = codes "https://api.deepseek.com";
  default_max_loops = pos 3;
  default_max_hours = pos 10000;
  default_max_llm_cost_usd = pos 20000;
  heartbeat_timeout_sec = 600;
  cleanup_remote_on_complete = true;
}

abbrev request : JobRequest
request = record {
  producer = codes "AlphaAgent@0.1";
  scenario = codes "fin_factor";
  data_snapshot = codes "qlib_cn_stub";
  max_loops = none;
  runner_type = codes "local_docker";
  ssh_host = none;
  ssh_user = none;
  ssh_key_ref = none;
}

abbrev pub spec : JobSpec ℤ
spec = record {
  job_id = 1;
  producer = codes "alphaagent";
  scenario = codes "fin_factor";
  runner_target = record { type = local_docker; host = none; user = none; ssh_key_ref = none };
  llm = record {
    provider = codes "deepseek";
    model = codes "deepseek-chat";
    base_url = some (codes "https://api.deepseek.com");
    api_key_ref = codes "env:LLM_API_KEY";
  };
  budget = record { max_loops = pos 3; max_hours = pos 10000; max_llm_cost_usd = pos 20000 };
  data_snapshot = codes "qlib_cn_stub";
  callback = record {
    base_url = codes "http://127.0.0.1:8000/api/research/jobs/1";
    hmac_key_ref = codes "env:RUNNER_CALLBACK_SECRET";
  };
  artifact_upload = record {
    type = http_put;
    url = codes "http://127.0.0.1:8000/api/research/jobs/1/artifact";
  };
}

build_spec-IsSpec_example : IsSpec 1 spec
unfolding build_spec signal_lab.Research.Create.normalize_producer signal_lab.Common.Text.text_eq
    signal_lab.Common.Text.before signal_lab.Common.Text.strip signal_lab.Contracts.Job.make_target
    signal_lab.Contracts.Job.make_llm signal_lab.Contracts.Job.make_budget
    signal_lab.Contracts.Job.make_callback signal_lab.Common.Text.rstrip_char
    signal_lab.Common.Text.show_ℕ
build_spec-IsSpec_example = build_spec-IsSpec settings 1 request spec refl

abbrev job : JobStatus → Option ℕ → ResearchJob ℤ
job status heard = record (new_job 0 spec) { status = status; last_heartbeat_at = heard }

abbrev at_status : JobStatus → Option ℕ → Session ℤ ℕ
at_status status heard = record {
  db = record { jobs = job status heard ∷ []; events = []; strategies = []; signals = [] };
  artifacts = [];
  world = 0;
}

abbrev file : Text
file = codes "abc"

replay_idempotent_example :
    let s' = (replay_events_jsonl decoders 2000 1 file (at_status running none)).1 in
    ((replay_events_jsonl decoders 3000 1 file s').0 ≡ ok 0)
    × ((replay_events_jsonl decoders 3000 1 file s').1.db.events ≡ s'.db.events)
unfolding replay_events_jsonl signal_lab.Research.Reports.replay_lines
    signal_lab.Common.Text.splitlines signal_lab.Research.Reports.replay_event
    signal_lab.Research.Decode.event_of_line signal_lab.Common.Text.strip
    signal_lab.Research.Reports.ingest_event signal_lab.Research.Reports.ingest_found get_job
    signal_lab.Common.any
replay_idempotent_example =
    replay_idempotent decoders 1 2000 3000 file (at_status running none) 1 refl

probe_marks_silent_example :
    let t = (probe_lost_jobs decoders runners 5000 600 (at_status running (some 1000))).1 in
    All
      (λ k.
        WasSilent decoders runners 5000 600 k (at_status running (some 1000))
        × IsLost decoders runners 5000 600 k t)
      (1 ∷ [])
    × ((k : ℕ) (j : ResearchJob ℤ)
        → get_job k (at_status running (some 1000)).db.jobs ≡ some j
        → (is_open j.status ≡ false) ⊎ (is_stale 5000 600 j.last_heartbeat_at ≡ false)
        → get_job k t.db.jobs ≡ some j)
unfolding probe_lost_jobs signal_lab.Research.Probe.probe_all signal_lab.Common.select
    signal_lab.Research.Probe.probe_one signal_lab.Research.Probe.probe_found get_job
    signal_lab.Research.Probe.after_fetch signal_lab.Research.Jobs.provisioner_for_runtime
    signal_lab.Common.Text.text_eq signal_lab.Research.Probe.check_found
probe_marks_silent_example =
    probe_marks_silent decoders runners 5000 600 (at_status running (some 1000)) (1 ∷ []) (tt, tt)
      refl

-- The question after the runner of the second job raises, and the first job is not lost after all.
abbrev unreachable : Provisioners ℤ ℕ
unreachable =
    let p = record runner {
      is_alive = λ runtime w. (if w == 0 then (ok false, 1) else (err (codes "SSH"), w));
    } in
    record { local_process = λ producer. p; docker = p; remote = p }

abbrev two_jobs : Session ℤ ℕ
two_jobs = record (at_status running (some 1000)) {
  db = record {
    jobs = job running (some 1000) ∷ record (job running (some 1000)) { id = 2 } ∷ [];
    events = [];
    strategies = [];
    signals = [];
  };
}

probe_raises :
    ((probe_lost_jobs decoders unreachable 5000 600 two_jobs).0 ≡ err (codes "SSH"))
    × ((probe_lost_jobs decoders unreachable 5000 600 two_jobs).1.db ≡ two_jobs.db)
unfolding probe_lost_jobs signal_lab.Research.Probe.probe_all signal_lab.Common.select
    signal_lab.Research.Probe.probe_one signal_lab.Research.Probe.probe_found get_job
    signal_lab.Research.Probe.after_fetch signal_lab.Research.Jobs.provisioner_for_runtime
    signal_lab.Common.Text.text_eq signal_lab.Research.Probe.check_found
    signal_lab.Research.Repo.flush_job signal_lab.Research.Repo.set_status
    signal_lab.Research.Probe.saved_one signal_lab.Research.Probe.saved_found
    signal_lab.Research.Probe.saved_fetch
probe_raises = (refl, refl)

abbrev report : Call
report = Calls.complete 5000 1 (codes "x") (codes "x") (codes "secret")

job_moves_example :
    Goes settings runners decoders market stats 1 true
      (job running none)
      (handle settings runners decoders market stats report (at_status running none))
unfolding get_job
job_moves_example =
    job_moves settings runners decoders market stats report 1 (job running none)
      (at_status running none) (tt, tt) refl

abbrev probed : Session ℤ ℕ
probed = handle settings runners decoders market stats (Calls.probe 5000) (at_status succeeded none)

sound : IsSound (at_status succeeded none)
sound = record { jobs = (tt, tt); events = tt; packages = tt }

Runs-IsSound_example : IsSound probed
Runs-IsSound_example =
    Runs-IsSound settings runners decoders market stats sound
      (Reach.next (Calls.probe 5000) Reach.here tt)

finished_stays_example :
    (i : ResearchJob ℤ) × (get_job 1 probed.db.jobs ≡ some i)
    × (i.status ≡ succeeded)
    × (i.spec ≡ spec)
unfolding get_job
finished_stays_example =
    finished_stays settings runners decoders market stats 1 (job succeeded none) sound refl refl
      (Reach.next (Calls.probe 5000) Reach.here tt) (tt, refl)
