-- ===== src/Payloads/Address.antt =====
-- `EMAIL_ADDRESS_PATTERN` of action_payloads.py, as a scan over code points. The pattern's local
-- part excludes `@` and its labels exclude `.`, so it matches exactly the texts that split at the
-- first `@` and at the dots into such parts.
use lifeflow.Prelude.{
  ℕ, ◌+◌, Bool, true, false, not, ◌&&◌, ◌||◌, String, List, [], ◌∷◌, codes, within, length, all,
  contains, leb, nat_eq, if◌then◌else◌, ◌==◌, map,
}

is_alphanumeric : ℕ → Bool
is_alphanumeric c = within b'0' b'9' c || within b'A' b'Z' c || within b'a' b'z' c

local_marks : List ℕ
local_marks = codes ".!#$%&'*+/=?^_`{|}~-"

is_local : ℕ → Bool
is_local c = is_alphanumeric c || contains local_marks c

-- The points before the first `@`, and those behind it if there is one.
split_at : List ℕ → List ℕ × List ℕ
split_at [] = ([], [])
split_at (c ∷ cs) =
    let (before, after) = split_at cs in if c == b'@' then ([], cs) else (c ∷ before, after)

-- The texts between the dots; never the empty list.
labels : List ℕ → List (List ℕ)
labels [] = [] ∷ []
labels (c ∷ cs) = elim (labels cs) [
  | [] ↦ (c ∷ []) ∷ []
  | l ∷ ls ↦ if c == b'.' then [] ∷ l ∷ ls else (c ∷ l) ∷ ls
]

last_or : ℕ → List ℕ → ℕ
last_or d [] = d
last_or d (c ∷ cs) = last_or c cs

-- `[A-Za-z0-9](?:[A-Za-z0-9-]{0,61}[A-Za-z0-9])?`
is_label : List ℕ → Bool
unfolding is_alphanumeric last_or
is_label [] = false
is_label (c ∷ cs) =
    is_alphanumeric c
    && is_alphanumeric (last_or c cs)
    && all (λ x. is_alphanumeric x || x == b'-') cs
    && leb (length cs) 62

unfoldable pub is_email_address : String → Bool
unfolding is_alphanumeric local_marks is_local split_at labels is_label nat_eq
is_email_address s =
    let (name, domain) = split_at (codes s) in
    not (leb (length name) 0)
    && all is_local name
    && all is_label (labels domain)
    && leb 2 (length (labels domain))

lower : ℕ → ℕ
lower c = if within b'A' b'Z' c then c + 32 else c

same_points : List ℕ → List ℕ → Bool
same_points [] [] = true
same_points (a ∷ as') (b ∷ bs) = a == b && same_points as' bs
same_points _ _ = false

occurs : List ℕ → List (List ℕ) → Bool
occurs a [] = false
occurs a (b ∷ bs) = same_points a b || occurs a bs

distinct : List (List ℕ) → Bool
distinct [] = true
distinct (a ∷ bs) = not (occurs a bs) && distinct bs

-- `_validate_addresses`: every address matches, and no two are equal but for case.
unfoldable pub valid_addresses : List String → Bool
unfolding is_email_address lower same_points occurs distinct
valid_addresses addresses =
    all is_email_address addresses && distinct (map (λ a. map lower (codes a)) addresses)
