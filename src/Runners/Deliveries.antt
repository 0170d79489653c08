-- ===== src/Runners/Deliveries.antt =====
-- A run whose reports are all lost, and the replay of its file.
use signal_lab.Common.{
  All, ℕ, ◌+◌, ◌≤◌, ◌==◌, ◌≡◌, refl, Bool, true, false, ◌||◌, Option, none, some, is_some, List, [],
  ◌∷◌, map, if◌then◌else◌, Result, ok,
}
use signal_lab.Common.Int.{ℤ, pos}
use signal_lab.Common.Fixed.{fixed}
use signal_lab.Common.Text.{Text, codes, text_eq, show_ℕ, splitlines}
use signal_lab.Contracts.Events.{RunnerEvent}
use signal_lab.Contracts.Job.{JobSpec, local_docker, http_put}
use signal_lab.Research.Models.{running, ResearchJob}
use signal_lab.Research.Repo.{is_stored}
use signal_lab.Research.Ports.{Decoders}
use signal_lab.Research.Session.{Session}
use signal_lab.Research.Reports.{replay_events_jsonl}
use signal_lab.Runners.Reporter.{url_error, Work, Line, event_line, complete_line, error_line}
use signal_lab.Runners.Runner.{rdagent, main}
use signal_lab.Runners.Delivered.{Reads, OneLine, file_text, file_delivers}
use signal_lab.Runners.Numbered.{on_wire}
use signal_lab.Runners.Tests.{answers, writers, begun, run_at}

abbrev lost : Work ℤ ℕ
lost = (run_at (url_error (codes "timed out"))).1

-- An event is written as its number, and a note by a letter.
abbrev dump : Line ℤ → Text
dump (event_line e) = show_ℕ e.seq
dump (complete_line c) = codes "c"
dump (error_line e path) = codes "e"

abbrev find_event : Text → List (Line ℤ) → Option (RunnerEvent ℤ)
find_event v [] = none
find_event v (event_line e ∷ ls) = if text_eq (show_ℕ e.seq) v then some e else find_event v ls
find_event v (complete_line c ∷ ls) = find_event v ls
find_event v (error_line e path ∷ ls) = find_event v ls

abbrev decoders : Decoders ℤ Text
decoders = record {
  hmac = λ secret body. body;
  event_of_body = λ body. none;
  report_of_body = λ body. none;
  json_loads = λ line. some line;
  has_key = λ key v. ok (
      if text_eq key (codes "_send_error")
      then text_eq v (codes "e")
      else if text_eq key (codes "_complete")
      then text_eq v (codes "c")
      else true);
  is_object = λ v. true;
  event_of_json = λ v. find_event v lost.lines;
  read_manifest = λ bytes. ok none;
  manifest_of_json = λ v. none;
}

abbrev spec : JobSpec ℤ
spec = record {
  job_id = 7;
  producer = codes "rdagent";
  scenario = codes "fin_factor";
  runner_target = record { type = local_docker; host = none; user = none; ssh_key_ref = none };
  llm = record {
    provider = codes "deepseek";
    model = codes "deepseek-chat";
    base_url = none;
    api_key_ref = codes "env:LLM_API_KEY";
  };
  budget = record { max_loops = pos 3; max_hours = pos 100000; max_llm_cost_usd = pos 10000 };
  data_snapshot = codes "qlib_cn_stub";
  callback = record {
    base_url = codes "http://127.0.0.1:8000/api/research/jobs/7";
    hmac_key_ref = codes "env:RUNNER_CALLBACK_SECRET";
  };
  artifact_upload = record {
    type = http_put;
    url = codes "http://127.0.0.1:8000/api/research/jobs/7/artifact";
  };
}

abbrev job : ResearchJob ℤ
job = record {
  id = 7;
  status = running;
  producer = codes "rdagent";
  scenario = codes "fin_factor";
  data_snapshot = codes "qlib_cn_stub";
  spec = spec;
  runtime = [];
  last_heartbeat_at = none;
  last_loop = pos 0;
  best_ic = none;
  llm_cost_usd = pos 0;
  error = [];
  strategy_id = none;
  created_at = 0;
  updated_at = 0;
  finished_at = none;
}

abbrev platform : Session ℤ ℕ
platform = record {
  db = record { jobs = job ∷ []; events = []; strategies = []; signals = [] };
  artifacts = [];
  world = 0;
}

readable : Reads decoders 7 dump lost.lines
unfolding main signal_lab.Common.Int.◌-ℤ◌ signal_lab.Common.Int.◌+ℤ◌ rdagent
    signal_lab.Runners.Reporter.upload_artifact signal_lab.Research.Decode.event_of_line
    signal_lab.Common.Text.strip show_ℕ text_eq
readable = (refl, (refl, (refl, (refl, (refl, (refl, (refl, (refl, (refl, (refl, tt))))))))))

one_line : OneLine dump lost.lines
unfolding main signal_lab.Common.Int.◌-ℤ◌ signal_lab.Common.Int.◌+ℤ◌ rdagent
    signal_lab.Runners.Reporter.upload_artifact show_ℕ
one_line = (
  (refl, tt),
  (
    (refl, tt),
    (
      (refl, tt),
      (
        (refl, tt),
        ((refl, tt), ((refl, tt), ((refl, tt), ((refl, tt), ((refl, tt), ((refl, tt), tt)))))),
      ),
    ),
  ),
)

-- `json.dumps` with `ensure_ascii=False` writes the character U+0085 of a message as it is, and the line
-- of the event falls into two.
broken :
    splitlines (file_text {F = ℤ} (λ line. 97 ∷ 133 ∷ 98 ∷ []) (error_line [] [] ∷ []))
    ≡ (97 ∷ []) ∷ (98 ∷ []) ∷ []
unfolding splitlines
broken = refl

file_delivers_example :
    let replayed = replay_events_jsonl decoders 50 7 (file_text dump lost.lines) platform in
    (n : ℕ) × (replayed.0 ≡ ok n)
    × All (λ i. is_stored 7 i replayed.1.db.events ≡ true) (on_wire lost.sent)
unfolding signal_lab.Research.Repo.get_job main signal_lab.Common.Int.◌-ℤ◌
    signal_lab.Common.Int.◌+ℤ◌ rdagent signal_lab.Runners.Reporter.upload_artifact
file_delivers_example =
    file_delivers decoders 7 50 dump (answers (url_error (codes "timed out"))) writers rdagent 11
      (codes "snapshot") begun platform refl refl refl refl refl one_line readable
