-- ===== src/Workflow/Redelivery.antt =====
-- A message that is delivered again after the pipeline had its turn, or before it could have it.
use visoraft.Prelude.{ℕ, String, ◌≡◌, refl, none, some}
use visoraft.Database.{Db, Outcome, ok}
use visoraft.Tasks.Terminal.{Delivery, deliver, deliver-consumed}
use visoraft.Pipeline.{Checkpoint, Advance, advance_body, advance}
use visoraft.Pipeline.Repeat.{advance-again, advance-keeps}
use visoraft.Workflow.{settled_event, pipeline_turn, pipeline_ids, handle}

-- A message whose event was applied, while the pipeline's turn failed or the process stopped before it:
-- delivered again, it applies nothing a second time and gives the pipeline its turn.
pub handle-resumes :
    (reviews : String → Db → Outcome) (d : Delivery) (later : ℕ) (db mid : Db) (id : String)
    (reached : Checkpoint)
    → deliver (record d { event = settled_event d.event }) db ≡ (mid, none)
    → pipeline_turn (settled_event d.event) ≡ some (id, reached)
    → handle reviews later d.ids d.envelope d.event mid
      ≡ advance reviews (pipeline_ids d.ids) id reached later mid
unfolding handle
handle-resumes reviews d later db mid id reached applied turn =
    rw (deliver-consumed (record d { event = settled_event d.event }) db mid mid later applied refl)
      (rw turn refl)

-- A message whose event was applied and whose stage was queued: delivered again, at whatever time, it
-- changes nothing and ends without an error.
pub handle-again :
    (reviews : String → Db → Outcome) (d : Delivery) (later : ℕ) (db mid after : Db) (id : String)
    (reached : Checkpoint)
    → deliver (record d { event = settled_event d.event }) db ≡ (mid, none)
    → pipeline_turn (settled_event d.event) ≡ some (id, reached)
    → advance_body (pipeline_ids d.ids) id reached d.clock mid ≡ ok (Advance.queued after)
    → (handle reviews d.clock d.ids d.envelope d.event db ≡ (after, none))
      × (handle reviews later d.ids d.envelope d.event after ≡ (after, none))
unfolding handle advance
handle-again reviews d later db mid after id reached applied turn queued = (
  rw applied (rw turn (rw queued refl)),
  rw
      (deliver-consumed (record d { event = settled_event d.event }) db mid after later applied
        (advance-keeps (pipeline_ids d.ids) id reached d.clock mid after queued))
      (rw turn (
        rw
          (advance-again (pipeline_ids d.ids) (pipeline_ids d.ids) id reached d.clock later mid
            after queued)
          refl)),
)
