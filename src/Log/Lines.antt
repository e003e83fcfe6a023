-- ===== src/Log/Lines.antt =====
-- The lines of the log that refreshLog of frontend/kindle/pages/debug/log.js shows.
use zen_pm.Prelude.{
  ℕ, ◌≡◌, ◌≢◌, refl, ap, ◌∙◌, List, [], ◌∷◌, Bool, true, false, Text, lit, ◌==◌, All, ◌or◌, arith,
  if◌then◌else◌,
}
use zen_pm.Strings.{split}
use zen_pm.Strings.Laws.{Without, split-Without, split-append-cons, split-ne-nil}
use zen_pm.Operation.{Failure}
use zen_pm.Requests.{resolved}
use mathlib.Core.List.{reverse, reverse_aux}
use zen_pm.Log.{trim_timestamps, join, LogOutput, refresh_log}

split-All : (c : ℕ) (s : Text) → All (Without c) (split c s)
unfolding split
split-All c [] = (tt, tt)
split-All c (d ∷ s) = by_parts (split c s) (split-ne-nil c s) (split-All c s) (d == c) refl
  where
    by_parts :
        (parts : List Text)
        → parts ≢ []
        → All (Without c) parts
        → (b : Bool) → (d == c) ≡ b
        → All (Without c) (elim parts as (λ _. List Text) [
          | [] ↦ (d ∷ []) ∷ []
          | part ∷ rest ↦ if b then [] ∷ part ∷ rest else (d ∷ part) ∷ rest
        ])
    by_parts [] n h b e = absurd (n refl)
    by_parts (part ∷ rest) n (p, h) true e = (tt, (p, h))
    by_parts (part ∷ rest) n (p, h) false e = (((ground (arith, e)), p), h)

reverse_aux-All :
    (P : Text → Type 0) (xs r : List Text) → All P xs → All P r → All P (reverse_aux xs r)
reverse_aux-All P [] r h k = k
reverse_aux-All P (x ∷ xs) r (p, h) k = reverse_aux-All P xs (x ∷ r) h (p, k)

reverse_aux-ne-nil : (xs : List Text) (y : Text) (r : List Text) → reverse_aux xs (y ∷ r) ≢ []
reverse_aux-ne-nil [] y r = λ e. cc
reverse_aux-ne-nil (x ∷ xs) y r = reverse_aux-ne-nil xs x (y ∷ r)

reverse-ne-nil : (xs : List Text) → xs ≢ [] → reverse xs ≢ []
reverse-ne-nil [] n = n
reverse-ne-nil (x ∷ xs) n = reverse_aux-ne-nil xs x []

-- Splitting undoes joining, of lines.
split-join :
    (c : ℕ) (lines : List Text)
    → c ≡ b'\n'
    → lines ≢ []
    → All (Without c) lines
    → split c (join lines) ≡ lines
split-join c [] e n h = absurd (n refl)
split-join c (x ∷ []) e n (p, h) = split-Without c x p
split-join c (x ∷ y ∷ rest) e n (p, h) = rw⁻¹ e (
    split-append-cons c x (join (y ∷ rest)) p
    ∙ ap (λ ls. x ∷ ls) (split-join c (y ∷ rest) e (λ q. cc) h))

-- The one line of an empty text.
join_empty : (lines : List Text) → lines ≢ [] → join lines ≡ [] → lines ≡ [] ∷ []
join_empty [] n e = absurd (n refl)
join_empty (x ∷ []) n e = ap (λ s. s ∷ []) e
join_empty ([] ∷ y ∷ rest) n e = cc
join_empty ((c ∷ x) ∷ y ∷ rest) n e = cc

reverse_aux_long :
    (xs : List Text) (x y z : Text) (r : List Text) → reverse_aux xs (x ∷ y ∷ r) ≢ z ∷ []
reverse_aux_long [] x y z r = λ e. cc
reverse_aux_long (u ∷ xs) x y z r = reverse_aux_long xs u x z (y ∷ r)

reverse_one : (xs : List Text) (z : Text) → reverse xs ≡ z ∷ [] → xs ≡ z ∷ []
reverse_one [] z e = cc
reverse_one (x ∷ []) z e = e
reverse_one (x ∷ y ∷ xs) z e = absurd (reverse_aux_long xs y x z [] e)

split_empty : (c : ℕ) (s : Text) → split c s ≡ [] ∷ [] → s ≡ []
unfolding split
split_empty c [] e = refl
split_empty c (d ∷ s) e = absurd (by_parts (split c s) (d == c) e)
  where
    by_parts :
        (parts : List Text) (b : Bool)
        → elim parts as (λ _. List Text) [
          | [] ↦ (d ∷ []) ∷ []
          | part ∷ rest ↦ if b then [] ∷ part ∷ rest else (d ∷ part) ∷ rest
        ]
          ≡ [] ∷ []
        → ⊥
    by_parts [] b e = cc
    by_parts (part ∷ rest) true e = cc
    by_parts (part ∷ rest) false e = cc

or_same : (s t : Text) → s ≢ [] → (s or t) ≡ s
or_same [] t n = absurd (n refl)
or_same (c ∷ s) t n = refl

-- The lines that the page shows of a log are those of the log, its time stamps trimmed, the last one
-- first, unless nothing is left of it; then one line says that it is empty.
pub refresh_log-reverse :
    (show_error : Failure → Text) (log : Text) (o : LogOutput)
    → let shown = (refresh_log show_error (resolved log) o).text in
      (trim_timestamps log ≢ [] → split b'\n' shown ≡ reverse (split b'\n' (trim_timestamps log)))
      × (trim_timestamps log ≡ [] → shown ≡ lit "Log is empty.")
unfolding refresh_log
refresh_log-reverse show_error log o = (
  λ n.
      let lines = split b'\n' (trim_timestamps log) in
      let some_line = reverse-ne-nil lines (split-ne-nil b'\n' (trim_timestamps log)) in
      ap (split b'\n') (
        or_same (join (reverse lines)) (lit "Log is empty.") (λ e. n (
          split_empty b'\n' (trim_timestamps log)
            (reverse_one lines [] (join_empty (reverse lines) some_line e)))))
      ∙ split-join b'\n' (reverse lines) refl some_line
          (reverse_aux-All (Without b'\n') lines [] (split-All b'\n' (trim_timestamps log)) tt),
  λ e. rw e (unfold split in refl),
)
