-- ===== src/Runners/Reporter.antt =====
-- runners/common/reporter.py: reports are numbered, written to events.jsonl and then sent; and the
-- budget of a run.
use signal_lab.Common.{
  ℕ, ◌+◌, ◌≡◌, refl, ◌⊎◌, inl, inr, Bool-cases, Bool, false, ◌&&◌, leb, ltb, Option, none, some,
  List, [], ◌∷◌, ◌++◌, if◌then◌else◌, ok, Exec, err, ◌>>◌, pure, raise, modify,
}
use signal_lab.Common.Int.{ℤ, pos, leb_ℤ}
use signal_lab.Common.Float.{Floats}
use signal_lab.Common.Text.{Text, codes}
use signal_lab.Contracts.Events.{
  RunnerEvent, RunnerEventType, CompletionReport, CompletionStatus, Hmac, sign_payload,
}

-- What `urlopen` does: a status, a URLError or TimeoutError, or another exception.
pub data Answer : Type 0 where
  status : ℕ → Answer
  url_error raised : Text → Answer

-- The machine and the network that a runner runs on, which keep a state of their own.
pub record Machine (F W : Type 0) : Type 0 where
  -- method, path, body and signature
  pub send : Text → Text → Text → Text → W → Answer × W
  -- `time.time()`, in seconds, and `_utcnow()`
  pub time : W → F × W
  pub utcnow : W → ℕ × W
  -- A line is added to events.jsonl: the text of an OSError if it cannot be written, and then no part
  -- of it stands in the file.
  pub append : W → Option Text × W
  -- `time.sleep(...)`
  pub sleep : W → W
  pub hmac : Hmac
  -- `json.dumps`
  pub dump_event : RunnerEvent F → Text
  pub dump_complete : CompletionReport F → Text

-- A line of events.jsonl.
pub data Line (F : Type 0) : Type 0 where
  event_line : RunnerEvent F → Line F
  complete_line : CompletionReport F → Line F
  error_line : Text → Text → Line F

-- What was handed to the network.
pub data Sent (F : Type 0) : Type 0 where
  sent_event : RunnerEvent F → Sent F
  sent_complete : CompletionReport F → Sent F
  sent_artifact : Text → Sent F

pub record BudgetGuard (F : Type 0) : Type 0 where
  pub max_loops : ℤ
  pub max_hours : F
  pub max_llm_cost_usd : F
  pub started_at : F
  pub loops : ℕ
  pub llm_cost_usd : F

pub data Reason : Type 0 where
  max_loops_reached max_hours_reached max_cost_reached : Reason

-- `Reporter`, the guard beside it, the files of the work directory, and what was sent.
pub record Work (F W : Type 0) : Type 0 where
  pub job_id : ℕ
  pub hmac_secret : Text
  pub seq : ℕ
  pub lines : List (Line F)
  pub files : List (Text × Text)
  pub sent : List (Sent F)
  pub guard : BudgetGuard F
  pub world : W

-- An exception, by its text.
abbrev pub Run : Type 0 → Type 0 → Type 0 → Type 0
Run F W A = Exec (Work F W) Text A

abbrev pub is_good : ℕ → Bool
is_good st = leb 200 st && ltb st 300

module _ {F W : Type 0} where
  abbrev pub add_line : Line F → Work F W → Work F W
  add_line line s = record s { lines = s.lines ++ line ∷ [] }

  abbrev pub appended : Line F → Option Text → Run F W (Unit {0})
  appended line none s = (ok tt, add_line line s)
  appended line (some e) s = (err e, s)

  abbrev pub write_file : Text → Text → Work F W → Work F W
  write_file name body s = record s { files = (name, body) ∷ s.files }

  -- `with urlopen(...) as resp`, and the handler of its errors.
  abbrev pub conclude : (Text → Run F W (Unit {0})) → Answer → Run F W Bool
  conclude on_error (status st) = pure (is_good st)
  conclude on_error (url_error e) = do on_error e; pure false
  conclude on_error (raised e) = raise e

module _ {F W : Type 0} (mc : Machine F W) where
  -- `_append_local`
  abbrev pub append_local : Line F → Run F W (Unit {0})
  append_local line s =
      let (failed, w) = mc.append s.world in appended line failed (record s { world = w })

  abbrev pub request : Text → Text → Text → Sent F → (Text → Run F W (Unit {0})) → Run F W Bool
  request method path body item on_error s =
      let (answer, w) =
        mc.send method path body (sign_payload mc.hmac s.hmac_secret body) s.world in
      conclude on_error answer (record s { world = w; sent = s.sent ++ item ∷ [] })

  -- `_post`
  unfoldable pub post : Text → Text → Sent F → Run F W Bool
  unfolding sign_payload
  post path body item =
      request (codes "POST") path body item (λ e. append_local (error_line e path))

-- The arguments of `event`.
pub record Report (F : Type 0) : Type 0 where
  pub type : RunnerEventType
  pub loop : Option ℤ
  pub best_ic : Option F
  pub llm_cost_usd : Option F
  pub message : Option Text

module _ {F : Type 0} where
  abbrev pub new_event : ℕ → ℕ → ℕ → Report F → RunnerEvent F
  new_event job_id ts seq r = record {
    job_id = job_id;
    type = r.type;
    ts = ts;
    seq = seq;
    loop = r.loop;
    best_ic = r.best_ic;
    llm_cost_usd = r.llm_cost_usd;
    message = r.message;
  }

module _ {F W : Type 0} (mc : Machine F W) where
  -- `_next_seq` has counted the event before it is written.
  abbrev pub file_event : RunnerEvent F → Run F W (Unit {0})
  file_event e = do modify (λ s. record s { seq = e.seq }); append_local mc (event_line e)

  unfoldable pub event : Report F → Run F W (Unit {0})
  unfolding post
  event r s =
      let (ts, w) = mc.utcnow s.world in
      let e = new_event s.job_id ts (s.seq + 1) r in
      (do file_event e; post mc (codes "/events") (mc.dump_event e) (sent_event e); pure tt)
        (record s { world = w })

  unfoldable pub upload_artifact : Text → Run F W Bool
  unfolding sign_payload
  upload_artifact body = request mc (codes "PUT") [] body (sent_artifact body) (λ e. do
    modify (write_file (codes "artifact_upload_error.txt") e)
    modify (write_file (codes "package.zip") body))

  unfoldable pub complete : CompletionStatus → Option ℕ → Run F W (Unit {0})
  unfolding post
  complete st package_id s =
      let c : CompletionReport F = record {
        job_id = s.job_id;
        status = st;
        package_id = package_id;
        total_loops = pos s.guard.loops;
        total_llm_cost_usd = s.guard.llm_cost_usd;
      } in
      (do
        append_local mc (complete_line c)
        post mc (codes "/complete") (mc.dump_complete c) (sent_complete c)
        pure tt)
        s

module _ {F W : Type 0} ⦃fl : Floats F⦄ where
  unfoldable pub record_loop : F → Work F W → Work F W
  record_loop cost s = record s {
    guard = record (s.guard) {
      loops = s.guard.loops + 1;
      llm_cost_usd = fl.add s.guard.llm_cost_usd cost;
    };
  }

abbrev pub is_out : {F : Type 0} → BudgetGuard F → Bool
is_out g = leb_ℤ g.max_loops (pos g.loops)

module _ {F : Type 0} ⦃fl : Floats F⦄ where
  abbrev pub over_time : F → BudgetGuard F → Option Reason
  over_time now g =
      if fl.le g.max_hours (fl.div (fl.sub now g.started_at) (fl.lit 3600 0))
      then some max_hours_reached
      else if fl.le g.max_llm_cost_usd g.llm_cost_usd
      then some max_cost_reached
      else none

module _ {F W : Type 0} ⦃fl : Floats F⦄ (mc : Machine F W) where
  -- The clock is read only if there are loops left.
  unfoldable pub exceeded : Run F W (Option Reason)
  exceeded s =
      let (now, w) = mc.time s.world in
      if is_out s.guard
      then (ok (some max_loops_reached), s)
      else (ok (over_time now s.guard), record s { world = w })

  pub exceeded-cases :
      (s : Work F W)
      → (exceeded s ≡ (ok (some max_loops_reached), s))
        ⊎ ((is_out s.guard ≡ false)
            × (exceeded s ≡ (
              ok (over_time (mc.time s.world).0 s.guard),
              record s { world = (mc.time s.world).1 },
            )))
  unfolding exceeded
  exceeded-cases s = elim (Bool-cases (is_out s.guard)) [
    | inl yes₁ ↦ inl (rw yes₁ refl)
    | inr no₁ ↦ inr (no₁, rw no₁ refl)
  ]
