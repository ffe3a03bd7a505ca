-- ===== src/Prelude/Trimmed.antt =====
-- What strings.TrimSpace leaves of a text.
use Prim.Native.Char.{Char}
use Prim.Native.String.{String}
use mathlib.Core.Path.{◌≡◌, refl, ap}
use mathlib.Core.Bool.{Bool, true, false, ◌&&◌}
use mathlib.Core.Logic.{inl, inr}
use native.Mathlib.Omega.{arith}
use visoraft.Prelude.Tests.{Bool-cases}
use visoraft.Prelude.Text.{is_space, trim_left, trim_right, cons_unless_blank, trim_space}

-- Each character of a text passes a test.
unfoldable pub every : (Char → Bool) → String → Bool
every p String.[] = true
every p (String.◌∷◌ c s) = p c && every p s

-- A text of white space, the empty one too.
unfoldable pub is_blank : String → Bool
unfolding every is_space
is_blank s = every is_space s

module _ (p : Char → Bool) where
  every-cons_unless_blank :
      (c : Char) (s : String)
      → p c ≡ true
      → every p s ≡ true
      → every p (cons_unless_blank c s) ≡ true
  unfolding every
  every-cons_unless_blank c String.[] first rest = elim (Bool-cases (is_space c)) [
    | inl space ↦ rw space refl
    | inr mark ↦ rw mark (rw first refl)
  ]
  every-cons_unless_blank c (String.◌∷◌ d s) first rest = rw first rest

  every-trim_right : (s : String) → every p s ≡ true → every p (trim_right s) ≡ true
  unfolding every trim_right
  every-trim_right String.[] h = refl
  every-trim_right (String.◌∷◌ c s) h =
      every-cons_unless_blank c (trim_right s) (ground (arith, h))
        (every-trim_right s (ground (arith, h)))

  every-trim_left : (s : String) → every p s ≡ true → every p (trim_left s) ≡ true
  unfolding every trim_left
  every-trim_left String.[] h = refl
  every-trim_left (String.◌∷◌ c s) h = ground (arith, h, every-trim_left s)

  -- Trimming adds no character.
  pub every-trim_space : (s : String) → every p s ≡ true → every p (trim_space s) ≡ true
  unfolding trim_space
  every-trim_space s h = every-trim_right (trim_left s) (every-trim_left s h)

abbrev is_nil : String → Bool
is_nil String.[] = true
is_nil (String.◌∷◌ c s) = false

and_right : (a b : Bool) → (a && b) ≡ true → b ≡ true
and_right true b h = h
and_right false b h = cc

blank-cons_unless_blank :
    (c : Char) (s : String)
    → (every is_space s ≡ true → s ≡ String.[])
    → every is_space (cons_unless_blank c s) ≡ true
    → cons_unless_blank c s ≡ String.[]
unfolding every
blank-cons_unless_blank c String.[] ih h = elim (Bool-cases (is_space c)) [
  | inl space ↦ rw space refl
  | inr mark ↦ ground (arith, h, mark)
]
blank-cons_unless_blank c (String.◌∷◌ d s) ih h = never (ap is_nil (ih (and_right _ _ h)))
  where
    never : false ≡ true → String.◌∷◌ c (String.◌∷◌ d s) ≡ String.[]
    never h = cc

blank-trim_right : (s : String) → every is_space (trim_right s) ≡ true → trim_right s ≡ String.[]
unfolding every trim_right
blank-trim_right String.[] h = refl
blank-trim_right (String.◌∷◌ c s) h =
    blank-cons_unless_blank c (trim_right s) (blank-trim_right s) h

-- What is blank after it was trimmed is empty.
pub blank-trim_space : (s : String) → is_blank (trim_space s) ≡ true → trim_space s ≡ String.[]
unfolding trim_space is_blank
blank-trim_space s h = blank-trim_right (trim_left s) h
