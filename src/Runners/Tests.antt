-- ===== src/Runners/Tests.antt =====
-- A runner on a small machine: its world counts the readings of the clock, which are an hour apart.
use signal_lab.Common.{
  ℕ, ◌+◌, ◌*◌, ◌≡◌, refl, Bool, true, false, Option, none, some, List, [], ◌∷◌, ◌++◌, Result, ok,
  err, length, arith, ◌==◌, if◌then◌else◌,
}
use signal_lab.Common.Int.{ℤ, pos}
use signal_lab.Common.Fixed.{fixed}
use signal_lab.Common.Text.{Text, codes, show_ℕ}
use signal_lab.Runners.Reporter.{
  Answer, status, url_error, raised, Machine, Work, BudgetGuard, Line, Sent,
}
use signal_lab.Runners.Runner.{Writers, rdagent, main}
use signal_lab.Runners.Numbered.{Numbered, in_file}
use signal_lab.Runners.Ending.{OnlyUrlErrors, Writes}
use signal_lab.Runners.Completed.{completions, Ended, main_completed}

abbrev pub answers : Answer → Machine ℤ ℕ
answers a = record {
  send = λ method path body signature w. (a, w);
  time = λ w. (pos (w * 36000000), w + 1);
  utcnow = λ w. (w, w);
  append = λ w. (none, w);
  sleep = λ w. w;
  hmac = λ key body. key ++ body;
  dump_event = λ e. show_ℕ e.seq;
  dump_complete = λ c. show_ℕ c.job_id;
}

abbrev pub writers : Writers ℤ
writers = record { zip = λ m r. m.producer; dump_result = λ r. r.producer; round4 = λ x. x }

-- Three loops, ten hours and one dollar.
abbrev pub begun : Work ℤ ℕ
begun = record {
  job_id = 7;
  hmac_secret = codes "key";
  seq = 0;
  lines = [];
  files = [];
  sent = [];
  guard = record {
    max_loops = pos 3;
    max_hours = pos 100000;
    max_llm_cost_usd = pos 10000;
    started_at = pos 0;
    loops = 0;
    llm_cost_usd = pos 0;
  };
  world = 0;
}

abbrev pub run_at : Answer → Result Text ℕ × Work ℤ ℕ
run_at a = main (answers a) writers rdagent 11 (codes "snapshot") begun

uploaded : (run_at (status 200)).0 ≡ ok 0
unfolding main signal_lab.Common.Int.◌-ℤ◌ signal_lab.Common.Int.◌+ℤ◌ rdagent
    signal_lab.Runners.Reporter.upload_artifact
uploaded = refl

not_uploaded : (run_at (url_error (codes "timed out"))).0 ≡ ok 2
unfolding main signal_lab.Common.Int.◌-ℤ◌ signal_lab.Common.Int.◌+ℤ◌ rdagent
    signal_lab.Runners.Reporter.upload_artifact
not_uploaded = refl

-- A connection that is reset ends the research: the error is not caught where it is raised, and
-- the report on it meets the next one.
lost : (run_at (raised (codes "reset"))).0 ≡ err (codes "reset")
unfolding main
lost = refl

counted : in_file (run_at (status 200)).1.lines ≡ 1 ∷ 2 ∷ 3 ∷ 4 ∷ []
unfolding main signal_lab.Common.Int.◌-ℤ◌ signal_lab.Common.Int.◌+ℤ◌ rdagent
    signal_lab.Runners.Reporter.upload_artifact
counted = refl

reported_once : length (completions (run_at (status 500)).1.lines) ≡ 1
unfolding main signal_lab.Common.Int.◌-ℤ◌ signal_lab.Common.Int.◌+ℤ◌ rdagent
    signal_lab.Runners.Reporter.upload_artifact
reported_once = refl

-- The disk is full when the clock was read once, and has room afterwards.
abbrev full : Machine ℤ ℕ
full = record (answers (status 200)) {
  append = λ w. if w == 1 then (some (codes "No space left on device"), w + 1) else (none, w);
}

abbrev full_run : Result Text ℕ × Work ℤ ℕ
full_run = main full writers rdagent 11 (codes "snapshot") begun

-- The event that cannot be written is lost, and its number with it.
skipped : (in_file full_run.1.lines ≡ 1 ∷ 3 ∷ []) × (full_run.1.seq ≡ 3) × (full_run.0 ≡ ok 1)
unfolding main signal_lab.Common.Int.◌-ℤ◌ signal_lab.Common.Int.◌+ℤ◌ rdagent
skipped = (refl, refl, refl)

net : OnlyUrlErrors (answers (status 200))
net method path body signature w = refl

disk : Writes (answers (status 200))
disk w = refl

main_completed_example :
    (code : ℕ) × ((run_at (status 200)).0 ≡ ok code) × Ended 11 code (run_at (status 200)).1
main_completed_example =
    main_completed (answers (status 200)) net disk writers rdagent 11 (codes "snapshot") begun
      (refl, refl)
