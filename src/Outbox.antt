-- ===== src/Outbox.antt =====
-- The outbox: internal/outbox/store.go and the batch of internal/outbox/dispatcher.go. `skipped` are the
-- rows that another transaction has locked; the broker is the function `publish`, which returns its
-- error's text, cut to the 2000 bytes that the store keeps.
pub mod Delay
pub mod Claims
pub mod Batches
use visoraft.Prelude.{
  ℕ, zero, suc, ◌+◌, ◌*◌, ◌^◌, min, String, Bool, true, false, Option, none, some, List, [], ◌∷◌,
  ◌&&◌, ◌||◌, not, str_eq, ltb, leb, exists, update, is_some, if◌then◌else◌,
}
use visoraft.Database.{Db, OutboxMessage, OutboxStatus}

abbrev pub is_pending : OutboxStatus → Bool
is_pending OutboxStatus.pending = true
is_pending _ = false

abbrev pub is_publishing : OutboxStatus → Bool
is_publishing OutboxStatus.publishing = true
is_publishing _ = false

abbrev pub is_published : OutboxStatus → Bool
is_published OutboxStatus.published = true
is_published _ = false

-- interval '2 minutes'
abbrev pub lease : ℕ
lease = 120000

-- locked_at < now() - interval '2 minutes'
abbrev pub lease_is_over : ℕ → Option ℕ → Bool
lease_is_over now none = false
lease_is_over now (some t) = ltb (t + lease) now

abbrev pub task_is_paused : Db → String → Bool
task_is_paused db id = exists (λ t. str_eq t.id id && is_some t.paused_at) db.tasks

unfoldable pub is_eligible : ℕ → Db → OutboxMessage → Bool
is_eligible now db m =
    ((is_pending m.status && leb m.available_at now)
      || (is_publishing m.status && lease_is_over now m.locked_at))
    && not (task_is_paused db m.aggregate_id)

unfoldable pub filter {ℓ} : {A : Type ℓ} → (A → Bool) → List A → List A
filter p [] = []
filter p (x ∷ xs) = if p x then x ∷ filter p xs else filter p xs

unfoldable pub take {ℓ} : {A : Type ℓ} → ℕ → List A → List A
take zero xs = []
take (suc n) [] = []
take (suc n) (x ∷ xs) = x ∷ take n xs

unfoldable pub insert_by_age : OutboxMessage → List OutboxMessage → List OutboxMessage
insert_by_age m [] = m ∷ []
insert_by_age m (n ∷ ns) =
    if leb m.created_at n.created_at then m ∷ n ∷ ns else n ∷ insert_by_age m ns

-- ORDER BY message.created_at
unfoldable pub by_age : List OutboxMessage → List OutboxMessage
by_age [] = []
by_age (m ∷ ms) = insert_by_age m (by_age ms)

unfoldable pub picked : ℕ → (String → Bool) → ℕ → Db → List OutboxMessage
unfolding filter take by_age insert_by_age is_eligible
picked limit skipped now db =
    take limit
      (by_age (filter (λ m. is_eligible now db m && not (skipped m.id)) db.outbox_messages))

abbrev pub is_among : List OutboxMessage → OutboxMessage → Bool
is_among ms m = exists (λ x. str_eq x.id m.id) ms

abbrev pub lock_message : ℕ → OutboxMessage → OutboxMessage
lock_message now m = record m {
  status = OutboxStatus.publishing;
  locked_at = some now;
  attempts = m.attempts + 1;
}

-- The claimed rows as RETURNING shows them, and the table after the claim.
unfoldable pub claim : ℕ → (String → Bool) → ℕ → Db → List OutboxMessage × Db
unfolding picked
claim limit skipped now db =
    let chosen = picked limit skipped now db in
    let after = update (is_among chosen) (lock_message now) db.outbox_messages in
    (filter (is_among chosen) after, record db { outbox_messages = after })

abbrev pub publish_row : ℕ → OutboxMessage → OutboxMessage
publish_row now m = record m {
  status = OutboxStatus.published;
  published_at = some now;
  locked_at = none;
  last_error = "";
}

unfoldable pub mark_published : String → ℕ → Db → Db
mark_published id now db = record db {
  outbox_messages = update (λ m. str_eq m.id id) (publish_row now) db.outbox_messages;
}

abbrev pub reschedule_row : String → ℕ → ℕ → OutboxMessage → OutboxMessage
reschedule_row failure delay now m = record m {
  status = OutboxStatus.pending;
  available_at = now + delay;
  locked_at = none;
  last_error = failure;
}

unfoldable pub reschedule : String → String → ℕ → ℕ → Db → Db
reschedule id failure delay now db = record db {
  outbox_messages =
      update (λ m. str_eq m.id id) (reschedule_row failure delay now) db.outbox_messages;
}

-- min(2 ** attempt, 60) seconds, in milliseconds.
unfoldable pub retry_delay : ℕ → ℕ
retry_delay attempt = min (2 ^ attempt) 60 * 1000

-- What the broker's answer to a message decides.
abbrev pub go_on : Option String → Db × Option String → (String → Db) → Db × Option String
go_on none rest refused = rest
go_on (some failure) rest refused = (refused failure, some failure)

-- The loop over the claimed messages: the first that the broker refuses ends it.
unfoldable pub send_all :
    (OutboxMessage → Option String) → ℕ → List OutboxMessage → Db → Db × Option String
unfolding mark_published reschedule retry_delay
send_all publish now [] db = (db, none)
send_all publish now (m ∷ ms) db =
    go_on (publish m) (send_all publish now ms (mark_published m.id now db))
      (λ failure. reschedule m.id failure (retry_delay m.attempts) now db)

unfoldable pub dispatch_batch :
    (OutboxMessage → Option String) → (String → Bool) → ℕ → Db → Db × Option String
unfolding claim send_all
dispatch_batch publish skipped now db =
    send_all publish now (claim 20 skipped now db).0 (claim 20 skipped now db).1
