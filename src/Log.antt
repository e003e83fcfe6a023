-- ===== src/Log.antt =====
-- The page "Debug": frontend/kindle/pages/debug/log.js. Its answer is that of fetchText for
-- GET /log?tail=500, which the page asks for when it opens, every five seconds and on "Refresh".
pub mod Lines
use zen_pm.Prelude.{
  ℕ, zero, suc, List, [], ◌∷◌, ◌++◌, Bool, true, false, ◌&&◌, Text, lit, ◌==◌, leb, if◌then◌else◌,
  ◌or◌,
}
use mathlib.Core.List.{reverse}
use zen_pm.Strings.{split, take, drop}
use zen_pm.Operation.{Failure}
use zen_pm.Requests.{Settled, resolved, rejected}

abbrev is_digit : ℕ → Bool
is_digit c = leb 48 c && leb c 57

-- Whether a text begins like the pattern, in which "d" stands for a digit.
unfoldable pub fits : Text → Text → Bool
fits [] s = true
fits (p ∷ pattern) [] = false
fits (p ∷ pattern) (c ∷ s) = (if p == b'd' then is_digit c else c == p) && fits pattern s

-- /\d{4}-\d{2}-\d{2}T(\d{2}:\d{2}):\d{2}Z/
unfoldable pub stamp : Text
stamp = lit "dddd-dd-ddTdd:dd:ddZ"

-- Past the first `skip` characters, each time stamp is replaced by its hours and minutes.
unfoldable pub trim_from : (skip : ℕ) → Text → Text
unfolding fits stamp
trim_from skip [] = []
trim_from (suc skip) (c ∷ s) = trim_from skip s
trim_from zero (c ∷ s) = elim (fits stamp (c ∷ s)) [
  | true ↦ take 5 (drop 11 (c ∷ s)) ++ trim_from 19 s
  | false ↦ c ∷ trim_from zero s
]

unfoldable pub trim_timestamps : Text → Text
unfolding trim_from
trim_timestamps text = trim_from 0 text

-- `lines.join("\n")`
abbrev pub join : List Text → Text
join [] = []
join (x ∷ []) = x
join (x ∷ y ∷ xs) = x ++ b'\n' ∷ join (y ∷ xs)

-- el.logOutput
pub record LogOutput : Type 0 where
  pub text : Text
  pub scroll_top : ℕ

-- `refreshLog`, when its request settles; `show_error` is String of an error.
unfoldable pub refresh_log : (Failure → Text) → Settled Text → LogOutput → LogOutput
unfolding trim_timestamps
refresh_log show_error (resolved log) o =
    let lines = split b'\n' (trim_timestamps log) in
    record { text = join (reverse lines) or lit "Log is empty."; scroll_top = 0 }
refresh_log show_error (rejected err) o = record o {
  text = lit "Could not read log: " ++ show_error err;
}
