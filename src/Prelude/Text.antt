-- ===== src/Prelude/Text.antt =====
-- The texts of Go that the code tests: `strings.TrimSpace`, a prefix that is cut off, and lengths.
use Prim.Native.Nat.{ℕ, zero, suc, ◌+◌}
use Prim.Native.Char.{Char, code}
use Prim.Native.String.{String}
use mathlib.Core.Path.{◌≡◌, refl}
use mathlib.Core.Bool.{Bool, true, false, ◌&&◌, ◌||◌}
use mathlib.Core.Option.{Option, none, some}
use visoraft.Prelude.Tests.{ltb, leb, ◌==◌, if◌then◌else◌}

-- unicode.IsSpace
unfoldable pub is_space : Char → Bool
is_space c =
    (leb 9 (code c) && leb (code c) 13)
    || (code c == 32)
    || (code c == 0x85)
    || (code c == 0xa0)
    || (code c == 0x1680)
    || (leb 0x2000 (code c) && leb (code c) 0x200a)
    || (code c == 0x2028)
    || (code c == 0x2029)
    || (code c == 0x202f)
    || (code c == 0x205f)
    || (code c == 0x3000)

unfoldable pub trim_left : String → String
trim_left String.[] = String.[]
trim_left (String.◌∷◌ c s) = if is_space c then trim_left s else String.◌∷◌ c s

abbrev pub cons_unless_blank : Char → String → String
cons_unless_blank c String.[] = if is_space c then String.[] else String.◌∷◌ c String.[]
cons_unless_blank c (String.◌∷◌ d s) = String.◌∷◌ c (String.◌∷◌ d s)

unfoldable pub trim_right : String → String
trim_right String.[] = String.[]
trim_right (String.◌∷◌ c s) = cons_unless_blank c (trim_right s)

-- strings.TrimSpace
unfoldable pub trim_space : String → String
unfolding trim_left trim_right is_space
trim_space s = trim_right (trim_left s)

-- What follows a prefix, or `none` where the text does not begin with it.
unfoldable pub strip_prefix : String → String → Option String
strip_prefix String.[] s = some s
strip_prefix (String.◌∷◌ c p) String.[] = none
strip_prefix (String.◌∷◌ c p) (String.◌∷◌ d s) = if code c == code d then strip_prefix p s else none

-- The bytes of a character in UTF-8.
char_bytes : Char → ℕ
char_bytes c =
    if ltb (code c) 0x80
    then 1
    else if ltb (code c) 0x800
    then 2
    else if ltb (code c) 0x10000
    then 3
    else 4

-- len of a string: its bytes.
unfoldable pub len : String → ℕ
unfolding char_bytes
len String.[] = 0
len (String.◌∷◌ c s) = char_bytes c + len s

-- The first n runes.
unfoldable pub take_runes : ℕ → String → String
take_runes zero s = String.[]
take_runes (suc n) String.[] = String.[]
take_runes (suc n) (String.◌∷◌ c s) = String.◌∷◌ c (take_runes n s)

-- unicode.ToLower of a rune, as far as its value is an ASCII letter: A to Z, the dotted capital I and
-- the Kelvin sign.
lower : ℕ → ℕ
lower c =
    if leb 65 c && leb c 90
    then c + 32
    else if c == 0x130
    then 105
    else if c == 0x212a
    then 107
    else c

-- strings.ToLower(s) == word, for an ASCII word in lower case.
unfoldable pub lower_is : String → String → Bool
unfolding lower
lower_is String.[] String.[] = true
lower_is String.[] (String.◌∷◌ c s) = false
lower_is (String.◌∷◌ w word) String.[] = false
lower_is (String.◌∷◌ w word) (String.◌∷◌ c s) = code w == lower (code c) && lower_is word s

-- The letter of ASCII that a rune folds to: A to Z, the long s and the Kelvin sign fold to one.
fold : ℕ → ℕ
fold c =
    if leb 65 c && leb c 90
    then c + 32
    else if c == 0x17f
    then 115
    else if c == 0x212a
    then 107
    else c

-- strings.EqualFold(s, word), for an ASCII word in lower case.
unfoldable pub fold_is : String → String → Bool
unfolding fold
fold_is String.[] String.[] = true
fold_is String.[] (String.◌∷◌ c s) = false
fold_is (String.◌∷◌ w word) String.[] = false
fold_is (String.◌∷◌ w word) (String.◌∷◌ c s) = code w == fold (code c) && fold_is word s

lower_begins : String → String → Bool
unfolding lower
lower_begins String.[] s = true
lower_begins (String.◌∷◌ w word) String.[] = false
lower_begins (String.◌∷◌ w word) (String.◌∷◌ c s) = code w == lower (code c) && lower_begins word s

-- strings.Contains(strings.ToLower(s), word), for a word of ASCII letters in lower case and of signs
-- without a case.
unfoldable pub lower_contains : String → String → Bool
unfolding lower_begins
lower_contains word String.[] = lower_begins word String.[]
lower_contains word (String.◌∷◌ c s) = lower_begins word (String.◌∷◌ c s) || lower_contains word s

test_lower : lower_is "high" "HiGh" ≡ true
unfolding lower_is
test_lower = refl

test_contains : lower_contains "[x]" "a [X] b" ≡ true
unfolding lower_contains
test_contains = refl

test_trim : trim_space "  a b  " ≡ "a b"
unfolding trim_space
test_trim = refl

test_strip : strip_prefix "task/" "task/7" ≡ some "7"
unfolding strip_prefix
test_strip = refl

test_len : len "é中a" ≡ 6
unfolding len
test_len = refl

-- The runes of a text: len([]rune(s)).
unfoldable pub rune_count : String → ℕ
rune_count String.[] = 0
rune_count (String.◌∷◌ c s) = suc (rune_count s)
