-- ===== src/Scenarios/Messages.antt =====
-- The outbox of concrete databases.
use visoraft.Prelude.{
  ℕ, String, ◌≡◌, ◌≤◌, refl, Bool, true, false, Option, none, some, [], ◌∷◌, ◌&&◌, ◌||◌, not,
  str_eq, exists, length, ltb, arith,
}
use visoraft.Database.{Db, OutboxMessage, OutboxStatus, TaskStatus}
use visoraft.Outbox.{mark_published, picked, claim, dispatch_batch, is_among, task_is_paused}
use visoraft.Outbox.Claims.{
  is_untimely, can_be_taken, Turn, Turns, picked-eligible, claim-exclusive,
}
use visoraft.Outbox.Batches.{unpublished, dispatch_batch-published}
use visoraft.Scenarios.Rows.{empty_db, task_in}

abbrev command_for : String → String → OutboxMessage
command_for id task = record {
  id = id;
  aggregate_id = task;
  event_type = "io.visoraft.media.download.requested.v1";
  payload = record {
    task_id = task;
    attempt = 1;
    source_url = none;
    cookie_profile_id = none;
    run_id = none;
  };
  status = OutboxStatus.pending;
  attempts = 0;
  available_at = 10;
  locked_at = none;
  published_at = none;
  last_error = "";
  created_at = 10;
}

-- The task of the second message is paused.
abbrev full : Db
full = record empty_db {
  tasks =
      task_in "a" TaskStatus.metadata_ready
      ∷ record (task_in "b" TaskStatus.metadata_ready) { paused_at = some 5 }
      ∷ [];
  outbox_messages = command_for "m1" "a" ∷ command_for "m2" "b" ∷ [];
}

abbrev none_locked : String → Bool
none_locked id = false

abbrev takes_all : OutboxMessage → Option String
takes_all m = none

picked-eligible_example :
    (length (picked 20 none_locked 50 full) ≤ 20)
    × (exists
          (λ m. is_untimely 50 m || (none_locked m.id || task_is_paused full m.aggregate_id))
          (picked 20 none_locked 50 full)
        ≡ false)
    × ((ltb (length (picked 20 none_locked 50 full)) 20
          && exists
              (λ m.
                can_be_taken 50 none_locked full m
                && not (is_among (picked 20 none_locked 50 full) m))
              full.outbox_messages)
        ≡ false)
picked-eligible_example = picked-eligible 20 none_locked 50 full

-- Another dispatcher claims in between, and a message is marked as published.
abbrev claimed : Db
claimed = (claim 20 none_locked 50 full).1

abbrev busy : Db
busy = mark_published "m1" 70 (claim 5 none_locked 60 claimed).1

claim-exclusive_example :
    exists (is_among (picked 20 none_locked 50 full)) (picked 5 none_locked 120050 busy) ≡ false
claim-exclusive_example =
    claim-exclusive 20 5 none_locked none_locked 50 120050 full busy (omega arith) (
      Turns.then_turn
        (Turns.then_turn Turns.start (Turn.claims 5 none_locked 60 claimed (omega arith)))
        (Turn.marks "m1" 70 (claim 5 none_locked 60 claimed).1))

dispatch_batch-published_example :
    exists (unpublished "m1") (dispatch_batch takes_all none_locked 50 full).0.outbox_messages
    ≡ false
unfolding dispatch_batch visoraft.Prelude.update exists
dispatch_batch-published_example =
    dispatch_batch-published takes_all none_locked 50 full "m1" refl refl
