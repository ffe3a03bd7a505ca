-- ===== src/Publishing/Schedule.antt =====
-- The time that a daily schedule gives.
use Prim.Native.Nat.{◌%◌}
use visoraft.Prelude.{
  ℕ, ◌+◌, ◌*◌, ◌<◌, ◌≤◌, String, ◌≡◌, refl, ap, subst, Option, none, some, arith, leb, Bool-cases,
  inl, inr, ◌&&◌,
}
use visoraft.Publishing.Templates.{
  day, at_clock, next_schedule, parse_clock, clock_of_parts, clock_of_split, split_colon,
  parse_number,
}

-- An hour and a minute.
record IsClock (c : ℕ × ℕ) : Type 0 where
  hours : c.0 ≤ 23
  minutes : c.1 ≤ 59

clock_or : Option (ℕ × ℕ) → ℕ × ℕ
clock_or none = (0, 0)
clock_or (some c) = c

-- The parts of a clock are in its range.
parts-IsClock : (hour minute : Option ℕ) → IsClock (clock_or (clock_of_parts hour minute))
unfolding clock_or
parts-IsClock none minute = record { hours = omega arith; minutes = omega arith }
parts-IsClock (some hour) none = record { hours = omega arith; minutes = omega arith }
parts-IsClock (some hour) (some minute) = elim (Bool-cases (leb hour 23 && leb minute 59)) [
  | inl h ↦ rw h (record { hours = ground (arith, h); minutes = ground (arith, h) })
  | inr h ↦ rw h (record { hours = omega arith; minutes = omega arith })
]

split-IsClock : (parts : String × Option String) → IsClock (clock_or (clock_of_split parts))
split-IsClock (hour, none) = parts-IsClock none none
split-IsClock (hour, some minute) = parts-IsClock (parse_number hour) (parse_number minute)

parse_clock-IsClock : (text : String) (c : ℕ × ℕ) → parse_clock text ≡ some c → IsClock c
unfolding parse_clock clock_or
parse_clock-IsClock text c h = subst IsClock (ap clock_or h) (split-IsClock (split_colon text))

pub record Scheduled (hour minute now t : ℕ) : Type 0 where
  pub after : now < t
  pub soon : t ≤ now + day
  pub on_time : t % day ≡ hour * 3600000 + minute * 60000

at_clock-Scheduled :
    (hour minute now : ℕ)
    → hour ≤ 23
    → minute ≤ 59
    → Scheduled hour minute now (at_clock (hour, minute) now)
unfolding at_clock
at_clock-Scheduled hour minute now hours minutes = record {
  after = ground arith;
  soon = ground arith;
  on_time = ground arith;
}

-- With a daily schedule at a time that is a clock's, a publication is scheduled for that time of the day (in UTC),
-- later than now and at most a day later.
pub next_schedule-daily :
    (text : String) (hour minute now : ℕ)
    → parse_clock text ≡ some (hour, minute)
    → (t : ℕ) × ((next_schedule "daily_time" (some text) now ≡ some t)
        × Scheduled hour minute now t)
unfolding next_schedule
next_schedule-daily text hour minute now clock =
    let range = parse_clock-IsClock text (hour, minute) clock in
    (
      at_clock (hour, minute) now,
      (rw clock refl, at_clock-Scheduled hour minute now range.hours range.minutes),
    )
