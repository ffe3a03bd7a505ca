-- ===== src/Publishing/Templates.antt =====
-- The texts and the time of a prepared publication: renderTemplate, appendStatement, mergeTags and nextSchedule
-- of internal/publishing/job_store.go. A schedule is a text that validClock of
-- internal/publishing/service.go lets through, and times are in UTC, as PrepareApprovedTask is given them.
use Prim.Native.Nat.{◌%◌}
use Prim.Native.Char.{Char, code}
use Prim.Native.String.{◌++◌ as str_append}
use visoraft.Prelude.{
  ℕ, zero, suc, ◌+◌, ◌*◌, ◌-◌, String, ◌≡◌, refl, Bool, Option, none, some, List, [], ◌∷◌, ◌&&◌,
  ◌||◌, str_eq, ltb, leb, ◌==◌, is_some, trim_space, strip_prefix, rune_count, if◌then◌else◌,
}
use visoraft.Reviews.Metadata.{add_parts}

-- What stands at a place of the template: the text that replaces it, and how many further runes it takes.
abbrev Hit : Type 0
Hit = String × ℕ

-- The patterns are tried in the order of the arguments.
first_hit : List (String × String) → Char → String → Hit
first_hit [] c s = (String.◌∷◌ c String.[], 0)
first_hit ((pattern, text) ∷ rest) c s =
    if is_some (strip_prefix pattern (String.◌∷◌ c s))
    then (text, rune_count pattern - 1)
    else first_hit rest c s

-- strings.NewReplacer(…).Replace, for patterns that are not empty.
unfoldable pub replace_all : List (String × String) → ℕ → String → String
unfolding first_hit
replace_all pairs skip String.[] = String.[]
replace_all pairs (suc skip) (String.◌∷◌ c s) = replace_all pairs skip s
replace_all pairs zero (String.◌∷◌ c s) =
    let hit = first_hit pairs c s in str_append hit.0 (replace_all pairs hit.1 s)

pub record Source : Type 0 where
  pub title : String
  pub description : String
  pub source_url : String
  pub statement : String

unfoldable pub render_template : String → Source → String
unfolding replace_all
render_template template source = trim_space (
    replace_all
      (("{{title}}", source.title)
        ∷ ("{{description}}", source.description)
        ∷ ("{{source_url}}", source.source_url)
        ∷ ("{{repost_statement}}", source.statement)
        ∷ [])
      0 template)

-- A template that is blank stands for the text as it is.
abbrev pub render_or : String → String → Source → String
render_or plain template source =
    if str_eq (trim_space template) "" then plain else render_template template source

-- strings.Contains(s, part)
unfoldable pub contains : String → String → Bool
contains part String.[] = is_some (strip_prefix part String.[])
contains part (String.◌∷◌ c s) = is_some (strip_prefix part (String.◌∷◌ c s)) || contains part s

unfoldable pub append_statement : String → String → String
unfolding contains
append_statement raw given =
    let description = trim_space raw in
    let statement = trim_space given in
    if str_eq statement "" || contains statement description
    then description
    else if str_eq description ""
    then statement
    else str_append description (str_append "\n\n" statement)

unfoldable pub merge_tags : List String → List String → List String
unfolding add_parts
merge_tags own defaults = add_parts (add_parts [] own) defaults

is_digit : Char → Bool
is_digit c = leb 48 (code c) && leb (code c) 57

digits_from : ℕ → String → Option ℕ
digits_from n String.[] = some n
digits_from n (String.◌∷◌ c s) =
    let rest = digits_from (10 * n + (code c - 48)) s in if is_digit c then rest else none

digits : String → Option ℕ
unfolding digits_from is_digit
digits String.[] = none
digits (String.◌∷◌ c s) = digits_from 0 (String.◌∷◌ c s)

abbrev if_zero : Option ℕ → Option ℕ
if_zero (some zero) = some 0
if_zero _ = none

-- strconv.Atoi, as far as the number is not negative.
unfoldable pub parse_number : String → Option ℕ
unfolding digits
parse_number String.[] = none
parse_number (String.◌∷◌ c s) =
    if code c == 43
    then digits s
    else if code c == 45
    then if_zero (digits s)
    else digits (String.◌∷◌ c s)

-- The parts before and after the first colon.
unfoldable pub split_colon : String → String × Option String
split_colon String.[] = (String.[], none)
split_colon (String.◌∷◌ c s) =
    let rest = split_colon s in
    if code c == 58 then (String.[], some s) else (String.◌∷◌ c rest.0, rest.1)

-- Hour and minute of a text in the form of a clock.
abbrev pub clock_of_parts : Option ℕ → Option ℕ → Option (ℕ × ℕ)
clock_of_parts (some hour) (some minute) =
    if leb hour 23 && leb minute 59 then some (hour, minute) else none
clock_of_parts _ _ = none

abbrev pub clock_of_split : String × Option String → Option (ℕ × ℕ)
clock_of_split (hour, none) = none
clock_of_split (hour, some minute) = clock_of_parts (parse_number hour) (parse_number minute)

unfoldable pub parse_clock : String → Option (ℕ × ℕ)
unfolding parse_number split_colon
parse_clock text = clock_of_split (split_colon text)

-- 24 * time.Hour
abbrev pub day : ℕ
day = 86400000

-- That time today, or tomorrow where it is not after now.
unfoldable pub at_clock : ℕ × ℕ → ℕ → ℕ
at_clock (hour, minute) now =
    let candidate = now - now % day + hour * 3600000 + minute * 60000 in
    if ltb now candidate then candidate else candidate + day

abbrev schedule_at : Option (ℕ × ℕ) → ℕ → Option ℕ
schedule_at none now = none
schedule_at (some clock) now = some (at_clock clock now)

abbrev schedule_of : Option String → ℕ → Option ℕ
schedule_of none now = none
schedule_of (some text) now = schedule_at (parse_clock text) now

-- nextSchedule of a strategy's mode and time.
unfoldable pub next_schedule : String → Option String → ℕ → Option ℕ
unfolding at_clock parse_clock
next_schedule mode time now = if str_eq mode "daily_time" then schedule_of time now else none

test_render :
    render_template "[{{title}}] {{title} {{description}} "
      (record { title = "A{{title}}"; description = "b"; source_url = "u"; statement = "s" })
    ≡ "[A{{title}}] {{title} b"
unfolding render_template strip_prefix trim_space rune_count
test_render = refl

test_schedule : next_schedule "daily_time" (some "09:30") 90000000 ≡ some 120600000
unfolding next_schedule
test_schedule = refl
