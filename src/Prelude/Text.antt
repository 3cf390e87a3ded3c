-- ===== src/Prelude/Text.antt =====
-- Texts as the code reads them: code points, their number, and stripping at both ends.
use Prim.Native.Nat.{ℕ, suc}
use Prim.Native.Char.{code}
use Prim.Native.String.{String}
use mathlib.Core.Path.{◌≡◌, refl}
use mathlib.Core.Bool.{Bool, true, false, ◌&&◌, ◌||◌}
use mathlib.Core.List.{List, [], ◌∷◌}
use native.Mathlib.Omega.{arith}
use lifeflow.Prelude.Tests.{leb, if◌then◌else◌}

-- The code points of a text. `String` has its own `[]` and `∷`.
abbrev pub codes : String → List ℕ
codes String.[] = []
codes (String.◌∷◌ c s) = code c ∷ codes s

-- `len(s)`
abbrev pub text_length : String → ℕ
text_length String.[] = 0
text_length (String.◌∷◌ c s) = suc (text_length s)

abbrev pub is_empty : String → Bool
is_empty String.[] = true
is_empty (String.◌∷◌ c s) = false

abbrev pub within : ℕ → ℕ → ℕ → Bool
within lo hi n = leb lo n && leb n hi

-- Unicode's White_Space property.
unfoldable pub is_white_space : ℕ → Bool
is_white_space n =
    within 9 13 n
    || within 32 32 n
    || within 133 133 n
    || within 160 160 n
    || within 5760 5760 n
    || within 8192 8202 n
    || within 8232 8233 n
    || within 8239 8239 n
    || within 8287 8287 n
    || within 12288 12288 n

-- `str.isspace`, which `str.strip` goes by: White_Space and the four separators.
unfoldable pub is_space : ℕ → Bool
unfolding is_white_space
is_space n = within 28 31 n || is_white_space n

module _ (space : ℕ → Bool) where
  unfoldable pub strip_left : String → String
  strip_left String.[] = String.[]
  strip_left (String.◌∷◌ c s) =
      let rest = strip_left s in if space (code c) then rest else String.◌∷◌ c s

  unfoldable pub strip_right : String → String
  strip_right String.[] = String.[]
  strip_right (String.◌∷◌ c s) =
      let rest = strip_right s in
      if space (code c) && is_empty rest then String.[] else String.◌∷◌ c rest

  unfoldable pub strip_by : String → String
  unfolding strip_left strip_right
  strip_by s = strip_left (strip_right s)

  strip_left_twice : (s : String) → strip_left (strip_left s) ≡ strip_left s
  unfolding strip_left
  strip_left_twice String.[] = refl
  strip_left_twice (String.◌∷◌ c s) = ground (arith, strip_left_twice s)

  strip_right_twice : (s : String) → strip_right (strip_right s) ≡ strip_right s
  unfolding strip_right
  strip_right_twice String.[] = refl
  strip_right_twice (String.◌∷◌ c s) = ground (arith, strip_right_twice s)

  strip_right-strip_left : (s : String) → strip_right (strip_left s) ≡ strip_left (strip_right s)
  unfolding strip_left strip_right
  strip_right-strip_left String.[] = refl
  strip_right-strip_left (String.◌∷◌ c s) = ground (arith, strip_right-strip_left s)

  pub strip_by_twice : (s : String) → strip_by (strip_by s) ≡ strip_by s
  unfolding strip_by
  strip_by_twice s = rw (
    strip_right-strip_left (strip_right s),
    strip_right_twice s,
    strip_left_twice (strip_right s),
  )
