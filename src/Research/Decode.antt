-- ===== src/Research/Decode.antt =====
-- packages/research/src/signal_research/service.py, `replay_events_jsonl`: which event of the job a
-- line of events.jsonl stands for.
use signal_lab.Common.{
  ◌&&◌, ℕ, ◌==◌, Bool, true, false, not, Option, none, some, [], ◌∷◌, if◌then◌else◌, Result, ok,
  err,
}
use signal_lab.Common.Text.{Text, codes, strip}
use signal_lab.Contracts.Events.{RunnerEvent}
use signal_lab.Research.Ports.{Decoders}

abbrev is_blank : Text → Bool
is_blank [] = true
is_blank (c ∷ s) = false

module _ {F J : Type 0} (d : Decoders F J) where
  abbrev when_key : Text → J → (Bool → Result Text Bool) → Result Text Bool
  when_key key v f = elim (d.has_key key v) [ err e ↦ err e | ok b ↦ f b ]

  -- `payload["_complete"]` raises for an array or a text that has it.
  abbrev of_note : J → Bool → Result Text Bool
  of_note v complete = if complete && not (d.is_object v) then err (codes "TypeError") else ok false

  -- Neither a note of the reporter nor a value without the three keys of an event.
  abbrev is_event : J → Result Text Bool
  is_event v = when_key (codes "_send_error") v λ sent.
      if sent
      then when_key (codes "_complete") v (of_note v)
      else when_key (codes "_complete") v λ complete.
        if complete
        then of_note v true
        else when_key (codes "job_id") v λ has_job.
          if not has_job
          then ok false
          else when_key (codes "type") v
              λ has_type. if not has_type then ok false else d.has_key (codes "seq") v

  -- The event that a line of the file stands for, if it is one of the job.
  abbrev event_of_value : ℕ → J → Result Text (Option (RunnerEvent F))
  event_of_value id v = elim (is_event v) [
    | err e ↦ err e
    | ok false ↦ ok none
    | ok true ↦ elim (d.event_of_json v) [
      | none ↦ ok none
      | some e ↦ ok (if e.job_id == id then some e else none)
    ]
  ]

  unfoldable pub event_of_line : ℕ → Text → Result Text (Option (RunnerEvent F))
  event_of_line id line =
      if is_blank (strip line)
      then ok none
      else elim (d.json_loads (strip line)) [ none ↦ ok none | some v ↦ event_of_value id v ]
