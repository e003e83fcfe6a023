-- ===== src/Strings.antt =====
-- The methods of JavaScript strings that the frontend calls, on sequences of code units:
-- `indexOf`, `lastIndexOf`, `substring`, `split`, and the replacements by the regular expressions
-- /\/+$/, /^v/i and /\+/g.
pub mod Laws
use zen_pm.Prelude.{
  ℕ, zero, suc, ◌≡◌, refl, List, [], ◌∷◌, ◌++◌, Option, none, some, Bool, true, false, ◌&&◌, ◌||◌,
  Text, lit, ◌==◌, leb, if◌then◌else◌,
}
use mathlib.Core.Option

-- `starts_with p s`: the text `s` begins with `p`.
unfoldable pub starts_with : Text → Text → Bool
starts_with [] s = true
starts_with (c ∷ p) [] = false
starts_with (c ∷ p) (d ∷ s) = c == d && starts_with p s

-- `s.indexOf(p)`; `none` stands for -1.
unfoldable pub index_of : Text → Text → Option ℕ
unfolding starts_with
index_of p [] = if starts_with p [] then some 0 else none
index_of p (c ∷ s) =
    let later = Option.map suc (index_of p s) in if starts_with p (c ∷ s) then some 0 else later

-- `s.lastIndexOf(p)`
unfoldable pub last_index_of : Text → Text → Option ℕ
unfolding starts_with
last_index_of p [] = if starts_with p [] then some 0 else none
last_index_of p (c ∷ s) = elim (last_index_of p s) [
  | some i ↦ some (suc i)
  | none ↦ if starts_with p (c ∷ s) then some 0 else none
]

abbrev is_some : {A : Type 0} → Option A → Bool
is_some none = false
is_some (some a) = true

-- `s.indexOf(p) !== -1`
unfoldable pub contains : Text → Text → Bool
unfolding index_of
contains p s = is_some (index_of p s)

-- `s.substring(0, n)` and `s.substring(n)`
unfoldable pub take : ℕ → Text → Text
take zero s = []
take (suc n) [] = []
take (suc n) (c ∷ s) = c ∷ take n s

unfoldable pub drop : ℕ → Text → Text
drop zero s = s
drop (suc n) [] = []
drop (suc n) (c ∷ s) = drop n s

-- `s.replace(/\/+$/, "")`
unfoldable pub trim_right_slashes : Text → Text
trim_right_slashes [] = []
trim_right_slashes (c ∷ s) = elim (trim_right_slashes s) [
  | [] ↦ if c == b'/' then [] else c ∷ []
  | d ∷ r ↦ c ∷ d ∷ r
]

-- `s.replace(/^\/+/, "")`
unfoldable pub trim_left_slashes : Text → Text
trim_left_slashes [] = []
trim_left_slashes (c ∷ s) = let rest = trim_left_slashes s in if c == b'/' then rest else c ∷ s

-- `s.replace(/^v/i, "")`
unfoldable pub strip_v : Text → Text
strip_v [] = []
strip_v (c ∷ s) = if c == b'v' || c == b'V' then s else c ∷ s

-- `s.split(c)` for a separator of one code unit
unfoldable pub split : ℕ → Text → List Text
split sep [] = [] ∷ []
split sep (c ∷ s) = elim (split sep s) [
  | [] ↦ (c ∷ []) ∷ []
  | part ∷ parts ↦ if c == sep then [] ∷ part ∷ parts else (c ∷ part) ∷ parts
]

-- White space and line terminators, as `trim` takes them off.
unfoldable pub is_space : ℕ → Bool
is_space c =
    (leb 9 c && leb c 13)
    || c == 32
    || c == 160
    || c == 5760
    || (leb 8192 c && leb c 8202)
    || c == 8232
    || c == 8233
    || c == 8239
    || c == 8287
    || c == 12288
    || c == 65279

unfoldable pub trim_left : Text → Text
unfolding is_space
trim_left [] = []
trim_left (c ∷ s) = let rest = trim_left s in if is_space c then rest else c ∷ s

unfoldable pub trim_right : Text → Text
unfolding is_space
trim_right [] = []
trim_right (c ∷ s) = elim (trim_right s) [
  | [] ↦ if is_space c then [] else c ∷ []
  | d ∷ r ↦ c ∷ d ∷ r
]

-- `s.trim()`
unfoldable pub trim : Text → Text
unfolding trim_left trim_right
trim s = trim_left (trim_right s)
