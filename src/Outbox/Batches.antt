-- ===== src/Outbox/Batches.antt =====
-- A batch that the dispatcher sends.
use visoraft.Prelude.{
  ℕ, String, ◌≡◌, refl, arith, Bool, true, false, Option, none, some, List, [], ◌∷◌, ◌&&◌, not,
  str_eq, exists, update, exists-update_all, exists-update_none, Option-cases, Bool-cases, inl, inr,
  str_eq_iff,
}
use visoraft.Database.{Db, OutboxMessage}
use visoraft.Outbox.{
  dispatch_batch, claim, send_all, mark_published, reschedule, retry_delay, is_published,
  publish_row,
}

still_published :
    (id : String) (now : ℕ) (q : OutboxMessage → Bool) (ms : List OutboxMessage)
    → exists (λ m. q m && not (is_published m.status)) ms ≡ false
    → ((m : OutboxMessage) → q (publish_row now m) ≡ q m)
    → exists
        (λ m. q m && not (is_published m.status))
        (update (λ m. str_eq m.id id) (publish_row now) ms)
      ≡ false
still_published id now q ms h keeps =
    exists-update_none _ (λ m. q m && not (is_published m.status)) (λ m. str_eq m.id id)
      (publish_row now) ms h (λ m e. ground (arith, keeps m))

-- The rows with an id that are not published.
abbrev pub unpublished : String → OutboxMessage → Bool
unpublished id m = str_eq m.id id && not (is_published m.status)

now_published :
    (id : String) (now : ℕ) (ms : List OutboxMessage)
    → exists (unpublished id) (update (λ m. str_eq m.id id) (publish_row now) ms) ≡ false
now_published id now ms = exists-update_all _ _ (publish_row now) ms (λ m. ground arith)

failed : {failure : String} → ¬ (some failure ≡ none)
failed h = cc

module _ (publish : OutboxMessage → Option String) (now : ℕ) where
  send_all-done : (db : Db) → send_all publish now [] db ≡ (db, none)
  unfolding send_all
  send_all-done db = refl

  send_all-taken :
      (m : OutboxMessage) (ms : List OutboxMessage) (db : Db)
      → publish m ≡ none
      → send_all publish now (m ∷ ms) db ≡ send_all publish now ms (mark_published m.id now db)
  unfolding send_all
  send_all-taken m ms db taken = rw taken refl

  send_all-refused :
      (m : OutboxMessage) (ms : List OutboxMessage) (db : Db) {failure : String}
      → publish m ≡ some failure
      → send_all publish now (m ∷ ms) db
        ≡ (reschedule m.id failure (retry_delay m.attempts) now db, some failure)
  unfolding send_all
  send_all-refused m ms db refused = rw refused refl

  -- What is published stays so while the broker takes every message.
  send_all-keeps :
      (ms : List OutboxMessage) (db : Db) (id : String)
      → exists (unpublished id) db.outbox_messages ≡ false
      → (send_all publish now ms db).1 ≡ none
      → exists (unpublished id) (send_all publish now ms db).0.outbox_messages ≡ false
  unfolding mark_published
  send_all-keeps [] db id h e = rw (send_all-done db) h
  send_all-keeps (m ∷ ms) db id h e = elim (Option-cases (publish m)) [
    | inl taken ↦ rw (send_all-taken m ms db taken) (
        send_all-keeps ms (mark_published m.id now db) id
          (still_published m.id now (λ x. str_eq x.id id) db.outbox_messages h (λ x. refl))
          (rw (send_all-taken m ms db taken) at e))
    | inr (failure, refused) ↦ absurd (failed (rw (send_all-refused m ms db refused) at e))
  ]

  send_all-published :
      (ms : List OutboxMessage) (db : Db) (id : String)
      → exists (λ m. str_eq m.id id) ms ≡ true
      → (send_all publish now ms db).1 ≡ none
      → exists (unpublished id) (send_all publish now ms db).0.outbox_messages ≡ false
  unfolding exists mark_published
  send_all-published [] db id h e = cc
  send_all-published (m ∷ ms) db id h e = elim (Option-cases (publish m)) [
    | inl taken ↦ elim (Bool-cases (str_eq m.id id)) [
      | inl this ↦ rw (send_all-taken m ms db taken) (
          send_all-keeps ms (mark_published m.id now db) id
            (rw ((str_eq_iff m.id id).0 this) (now_published id now db.outbox_messages))
            (rw (send_all-taken m ms db taken) at e))
      | inr other ↦ rw (send_all-taken m ms db taken) (
          send_all-published ms (mark_published m.id now db) id (rw other at h)
            (rw (send_all-taken m ms db taken) at e))
    ]
    | inr (failure, refused) ↦ absurd (failed (rw (send_all-refused m ms db refused) at e))
  ]

-- A batch that ends without an error has published every message that it claimed: no row with the id of
-- a claimed message is left in another status.
pub dispatch_batch-published :
    (publish : OutboxMessage → Option String) (skipped : String → Bool) (now : ℕ) (db : Db)
    (id : String)
    → (dispatch_batch publish skipped now db).1 ≡ none
    → exists (λ m. str_eq m.id id) (claim 20 skipped now db).0 ≡ true
    → exists (unpublished id) (dispatch_batch publish skipped now db).0.outbox_messages ≡ false
unfolding dispatch_batch
dispatch_batch-published publish skipped now db id sent claimed =
    send_all-published publish now (claim 20 skipped now db).0 (claim 20 skipped now db).1 id
      claimed sent
