-- ===== src/Outbox/Claims.antt =====
-- What a claim of outbox messages takes.
use visoraft.Prelude.{
  ℕ, zero, suc, ◌+◌, String, ◌≡◌, refl, arith, Bool, false, List, [], ◌∷◌, ◌&&◌, ◌||◌, not, exists,
  length, Bool-cases, Option, none, some, true, ltb, leb, ap, str_eq_refl, ◌<◌, update, str_eq,
  str_eq_iff, subst, sym, ◌≤◌, inl, inr, exists-update_all, exists-update_none, set_where-none, ◌∙◌,
}
use visoraft.Database.{Db, OutboxMessage, OutboxStatus}
use visoraft.Outbox.{
  filter, take, insert_by_age, by_age, picked, lease_is_over, mark_published, reschedule,
  publish_row, reschedule_row, is_pending, is_publishing, is_published, is_eligible, is_among,
  lock_message, claim, lease, task_is_paused,
}

module _ {A : Type 0} (q : A → Bool) where
  exists-take : (n : ℕ) (xs : List A) → exists q xs ≡ false → exists q (take n xs) ≡ false
  unfolding exists take
  exists-take zero xs h = refl
  exists-take (suc n) [] h = refl
  exists-take (suc n) (x ∷ xs) h = ground (arith, exists-take n xs, h)

  exists-filter :
      (p : A → Bool) (xs : List A)
      → exists (λ x. p x && q x) xs ≡ false
      → exists q (filter p xs) ≡ false
  unfolding exists filter
  exists-filter p [] h = refl
  exists-filter p (x ∷ xs) h = ground (arith, exists-filter p xs, h)

module _ (q : OutboxMessage → Bool) where
  exists-insert :
      (m : OutboxMessage) (ms : List OutboxMessage)
      → exists q (insert_by_age m ms) ≡ (q m || exists q ms)
  unfolding exists insert_by_age
  exists-insert m [] = refl
  exists-insert m (n ∷ ns) = ground (arith, exists-insert m ns)

  exists-by_age : (ms : List OutboxMessage) → exists q (by_age ms) ≡ exists q ms
  unfolding exists by_age
  exists-by_age [] = refl
  exists-by_age (m ∷ ms) = rw (exists-insert m (by_age ms)) (rw (exists-by_age ms) refl)

-- A test that no eligible row passes, no picked row passes.
none_picked :
    (q : OutboxMessage → Bool) (limit : ℕ) (skipped : String → Bool) (now : ℕ) (db : Db)
    → exists (λ m. (is_eligible now db m && not (skipped m.id)) && q m) db.outbox_messages ≡ false
    → exists q (picked limit skipped now db) ≡ false
unfolding picked
none_picked q limit skipped now db h = exists-take q limit _ (
    rw
      (exists-by_age q
        (filter (λ m. is_eligible now db m && not (skipped m.id)) db.outbox_messages))
      (exists-filter q _ db.outbox_messages h))

length-take : {A : Type 0} (n : ℕ) (xs : List A) → length (take n xs) ≤ n
unfolding take
length-take zero xs = omega arith
length-take (suc n) [] = omega arith
length-take (suc n) (x ∷ xs) = omega (arith, length-take n xs)

-- Too early for a claim at that time: published, waiting for a later time, or in the hands of a claim
-- that is no older than two minutes.
abbrev pub held_within : ℕ → Option ℕ → Bool
held_within now none = true
held_within now (some t) = leb now (t + lease)

abbrev pub is_untimely : ℕ → OutboxMessage → Bool
is_untimely now m =
    is_published m.status
    || ((is_pending m.status && ltb now m.available_at)
        || (is_publishing m.status && held_within now m.locked_at))

clashing :
    (q : OutboxMessage → Bool) (ms : List OutboxMessage)
    → ((m : OutboxMessage) → q m ≡ false)
    → exists q ms ≡ false
unfolding exists
clashing q [] h = refl
clashing q (m ∷ ms) h = rw (h m) (clashing q ms h)

-- What passes a filter, and whatever stands for its members.
filtered :
    (p : OutboxMessage → Bool) (ms : List OutboxMessage) (s : OutboxMessage → Bool)
    → ((m : OutboxMessage) → is_among (filter p ms) m ≡ true → s m ≡ true)
    → exists (λ m. p m && not (s m)) ms ≡ false
unfolding exists filter
filtered p [] s h = refl
filtered p (x ∷ ms) s h = elim (Bool-cases (p x)) [
  | inr out ↦ rw out (filtered p ms s (λ m e. h m (rw out e)))
  | inl in_it ↦ rw in_it (
      rw (h x (rw in_it (rw (str_eq_refl x.id) refl)))
        (filtered p ms s (λ m e. h m (rw in_it (rw e (ground arith))))))
]

take-all : {A : Type 0} (n : ℕ) (xs : List A) → length (take n xs) < n → take n xs ≡ xs
unfolding take
take-all zero xs h = elim h [ ]
take-all (suc n) [] h = refl
take-all (suc n) (x ∷ xs) h = ap (λ ys. x ∷ ys) (take-all n xs (omega (arith, h)))

-- A claim that has room left picks every row that is timely, free and of a task that is not paused.
abbrev pub can_be_taken : ℕ → (String → Bool) → Db → OutboxMessage → Bool
can_be_taken now skipped db m =
    not (is_untimely now m) && (not (skipped m.id) && not (task_is_paused db m.aggregate_id))

can_be_taken-eligible :
    (now : ℕ) (skipped : String → Bool) (db : Db) (m : OutboxMessage)
    → can_be_taken now skipped db m ≡ (is_eligible now db m && not (skipped m.id))
unfolding is_eligible
can_be_taken-eligible now skipped db m =
    timely m.status m.locked_at (skipped m.id) (task_is_paused db m.aggregate_id)
  where
    timely :
        (status : OutboxStatus) (lock : Option ℕ) (skip paused : Bool)
        → (not (
              is_published status
              || ((is_pending status && ltb now m.available_at)
                  || (is_publishing status && held_within now lock)))
            && (not skip && not paused))
          ≡ ((((is_pending status && leb m.available_at now)
                  || (is_publishing status && lease_is_over now lock))
                && not paused)
              && not skip)
    timely status none skip paused = ground arith
    timely status (some t) skip paused = ground arith

exists-same :
    (p q : OutboxMessage → Bool) (ms : List OutboxMessage)
    → ((m : OutboxMessage) → p m ≡ q m)
    → exists p ms ≡ exists q ms
unfolding exists
exists-same p q [] same = refl
exists-same p q (m ∷ ms) same = rw (same m) (rw (exists-same p q ms same) refl)

all_picked :
    (limit : ℕ) (skipped : String → Bool) (now : ℕ) (db : Db)
    → length (picked limit skipped now db) < limit
    → exists
        (λ m. can_be_taken now skipped db m && not (is_among (picked limit skipped now db) m))
        db.outbox_messages
      ≡ false
unfolding picked
all_picked limit skipped now db room =
    let eligible : OutboxMessage → Bool = λ m. is_eligible now db m && not (skipped m.id) in
    rw (take-all limit (by_age (filter eligible db.outbox_messages)) room) (
      exists-same _
        (λ m. eligible m && not (is_among (by_age (filter eligible db.outbox_messages)) m))
        db.outbox_messages
        (λ m.
          ap (λ b. b && not (is_among (by_age (filter eligible db.outbox_messages)) m))
            (can_be_taken-eligible now skipped db m))
      ∙ filtered eligible db.outbox_messages
          (is_among (by_age (filter eligible db.outbox_messages)))
          (λ m e. exists-by_age (λ x. str_eq x.id m.id) (filter eligible db.outbox_messages) ∙ e))

length-picked :
    (limit : ℕ) (skipped : String → Bool) (now : ℕ) (db : Db)
    → length (picked limit skipped now db) ≤ limit
unfolding picked
length-picked limit skipped now db = length-take limit _

-- A claim picks at most as many messages as it was asked for. None of them is published, waits for a later
-- time, was claimed within the last two minutes, is locked by another transaction, or is of a paused task;
-- and while there is room left, every other message is picked.
pub picked-eligible :
    (limit : ℕ) (skipped : String → Bool) (now : ℕ) (db : Db)
    → (length (picked limit skipped now db) ≤ limit)
      × (exists
            (λ m. is_untimely now m || (skipped m.id || task_is_paused db m.aggregate_id))
            (picked limit skipped now db)
          ≡ false)
      × ((ltb (length (picked limit skipped now db)) limit
            && exists
                (λ m.
                  can_be_taken now skipped db m && not (is_among (picked limit skipped now db) m))
                db.outbox_messages)
          ≡ false)
picked-eligible limit skipped now db = (
  length-picked limit skipped now db,
  none_picked _ limit skipped now db
      (clashing _ db.outbox_messages (λ m. ground (arith, can_be_taken-eligible now skipped db m))),
  elim (Bool-cases (ltb (length (picked limit skipped now db)) limit)) [
    | inr full ↦ rw full refl
    | inl room ↦ rw room (all_picked limit skipped now db (ground arith))
  ],
)

-- Published, or in the hands of a claim that is no older than that time.
abbrev locked_since : ℕ → Option ℕ → Bool
locked_since now none = false
locked_since now (some t) = leb now t

abbrev is_kept : ℕ → OutboxMessage → Bool
is_kept now m = is_published m.status || (is_publishing m.status && locked_since now m.locked_at)

exists_under :
    (q p : OutboxMessage → Bool) (ms : List OutboxMessage)
    → ((m : OutboxMessage) → q m ≡ false → p m ≡ false)
    → exists q ms ≡ false
    → exists p ms ≡ false
unfolding exists
exists_under q p [] under clear = refl
exists_under q p (m ∷ ms) under clear = ground (arith, under m, exists_under q p ms under, clear)

-- A message that is kept is not eligible until the claim is two minutes old.
out_of_reach :
    (taken : List OutboxMessage) (now later : ℕ) (skipped : String → Bool) (db : Db)
    → later ≤ now + lease
    → (m : OutboxMessage) → (is_among taken m && not (is_kept now m)) ≡ false
    → ((is_eligible later db m && not (skipped m.id)) && is_among taken m) ≡ false
unfolding is_eligible
out_of_reach taken now later skipped db soon m fine =
    reach m.status m.locked_at (is_among taken m) (task_is_paused db m.aggregate_id) (skipped m.id)
      fine
  where
    reach :
        (status : OutboxStatus) (lock : Option ℕ) (mine paused skip : Bool)
        → (mine && not (is_published status || (is_publishing status && locked_since now lock)))
          ≡ false
        → (((((is_pending status && leb m.available_at later)
                  || (is_publishing status && lease_is_over later lock))
                && not paused)
              && not skip)
            && mine)
          ≡ false
    reach status none mine paused skip h = ground (arith, h, soon)
    reach status (some t) mine paused skip h = ground (arith, h, soon)

module _ (taken : List OutboxMessage) (now : ℕ) where
  -- Each of those messages is kept.
  abbrev lost_row : OutboxMessage → Bool
  lost_row m = is_among taken m && not (is_kept now m)

  -- What the dispatchers and the rest of the program do to the database after a claim at that time: further
  -- claims, messages that are marked as published, one that is rescheduled and not among those of the
  -- claim, a new message, and whatever leaves the outbox alone.
  pub data Turn : Db → Db → Type 0 where
    claims :
        (limit : ℕ) (skipped : String → Bool) (t : ℕ) (db : Db)
        → now ≤ t
        → Turn db (claim limit skipped t db).1
    marks : (id : String) (t : ℕ) (db : Db) → Turn db (mark_published id t db)
    reschedules :
        (id failure : String) (delay t : ℕ) (db : Db)
        → exists (λ x. str_eq x.id id) taken ≡ false
        → Turn db (reschedule id failure delay t db)
    inserts :
        (m : OutboxMessage) (db : Db)
        → is_among taken m ≡ false
        → Turn db (record db { outbox_messages = m ∷ db.outbox_messages })
    elsewhere : (db after : Db) → after.outbox_messages ≡ db.outbox_messages → Turn db after

  pub data Turns (db : Db) : Db → Type 0 where
    start : Turns db db
    then_turn : {v w : Db} → Turns db v → Turn v w → Turns db w

  Holds : Db → Type 0
  Holds db = exists lost_row db.outbox_messages ≡ false

  lock-kept :
      (p : OutboxMessage → Bool) (t : ℕ) (ms : List OutboxMessage)
      → now ≤ t
      → exists lost_row ms ≡ false
      → exists lost_row (update p (lock_message t) ms) ≡ false
  lock-kept p t ms later kept =
      exists-update_none lost_row lost_row p (lock_message t) ms kept (λ m fine.
        set_where-none lost_row p (lock_message t) m (λ hit. ground arith) (λ miss. fine))

  Turn-Holds : {v w : Db} → Turn v w → Holds v → Holds w
  unfolding Holds claim mark_published reschedule exists
  Turn-Holds (claims limit skipped t db later) kept =
      lock-kept (is_among (picked limit skipped t db)) t db.outbox_messages later kept
  Turn-Holds (marks id t db) kept =
      exists-update_none lost_row lost_row (λ m. str_eq m.id id) (publish_row t) db.outbox_messages
        kept
        (λ m fine.
          set_where-none lost_row (λ m. str_eq m.id id) (publish_row t) m (λ hit. ground arith)
            (λ miss. fine))
  Turn-Holds (reschedules id failure delay t db foreign) kept =
      exists-update_none lost_row lost_row (λ m. str_eq m.id id) (reschedule_row failure delay t)
        db.outbox_messages kept
        (λ m fine.
          set_where-none lost_row (λ m. str_eq m.id id) (reschedule_row failure delay t) m
            (λ hit.
              subst (λ i. (exists (λ x. str_eq x.id i) taken && true) ≡ false)
                (sym ((str_eq_iff _ _).0 hit)) (rw foreign refl))
            (λ miss. fine))
  Turn-Holds (inserts m db foreign) kept = rw foreign kept
  Turn-Holds (elsewhere db after same) kept = rw same kept

  Turns-Holds : {v w : Db} → Turns v w → Holds v → Holds w
  Turns-Holds start kept = kept
  Turns-Holds (then_turn before turn) kept = Turn-Holds turn (Turns-Holds before kept)

  held_back :
      (limit : ℕ) (skipped : String → Bool) (later : ℕ) (db : Db)
      → later ≤ now + lease
      → Holds db
      → exists (is_among taken) (picked limit skipped later db) ≡ false
  unfolding Holds
  held_back limit skipped later db soon kept = none_picked (is_among taken) limit skipped later db (
      exists_under lost_row _ db.outbox_messages
        (λ m fine. out_of_reach taken now later skipped db soon m fine) kept)

claimed :
    (limit : ℕ) (skipped : String → Bool) (now : ℕ) (db : Db)
    → Holds (picked limit skipped now db) now (claim limit skipped now db).1
unfolding Holds claim
claimed limit skipped now db =
    exists-update_all (lost_row (picked limit skipped now db) now)
      (is_among (picked limit skipped now db)) (lock_message now) db.outbox_messages
      (λ m.
        set_where-none (lost_row (picked limit skipped now db) now)
          (is_among (picked limit skipped now db)) (lock_message now) m (λ hit. ground arith)
          (λ miss. rw miss refl))

-- For two minutes after a claim no other claim, of whatever size and by whomever, takes a message that
-- it has taken, whatever lies in between of other claims at no earlier time, messages that are marked as
-- published, new messages with other ids, messages rescheduled that are not among its own, and changes of
-- other tables.
pub claim-exclusive :
    (limit limit' : ℕ) (skipped skipped' : String → Bool) (now later : ℕ) (db after : Db)
    → later ≤ now + lease
    → Turns (picked limit skipped now db) now (claim limit skipped now db).1 after
    → exists (is_among (picked limit skipped now db)) (picked limit' skipped' later after) ≡ false
claim-exclusive limit limit' skipped skipped' now later db after soon turns =
    held_back (picked limit skipped now db) now limit' skipped' later after soon
      (Turns-Holds (picked limit skipped now db) now turns (claimed limit skipped now db))
