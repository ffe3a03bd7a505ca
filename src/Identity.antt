-- ===== src/Identity.antt =====
-- `IsUUID` of internal/identity/uuid.go. `NewUUID` draws from the system's randomness: the ids that it
-- hands out are an argument of the operations that ask for them.
use Prim.Native.Char.{code}
use visoraft.Prelude.{
  ℕ, suc, String, len, ◌≡◌, refl, Bool, true, false, ◌&&◌, ◌||◌, leb, ◌==◌, if◌then◌else◌,
}

is_hexadecimal : ℕ → Bool
is_hexadecimal c =
    (leb b'0' c && leb c b'9') || (leb b'a' c && leb c b'f') || (leb b'A' c && leb c b'F')

-- The `switch index`: a dash at 8, 13, 18 and 23, a hexadecimal digit elsewhere.
fits_at : ℕ → ℕ → Bool
unfolding is_hexadecimal
fits_at i c = if i == 8 || i == 13 || i == 18 || i == 23 then c == b'-' else is_hexadecimal c

-- A character past ASCII is refused where it stands, so up to it an index counts bytes.
fits_from : ℕ → String → Bool
fits_from i String.[] = true
fits_from i (String.◌∷◌ c s) = fits_at i (code c) && fits_from (suc i) s

unfoldable pub is_uuid : String → Bool
unfolding fits_at fits_from
is_uuid value = len value == 36 && fits_from 0 value

accepts : is_uuid "0f8fad5b-d9cb-469f-a165-70867728950e" ≡ true
unfolding is_uuid len
accepts = refl

refuses : is_uuid "0f8fad5b-d9cb-469f-a165-70867728950g" ≡ false
unfolding is_uuid len
refuses = refl
