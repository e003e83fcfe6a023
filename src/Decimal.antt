-- ===== src/Decimal.antt =====
-- `String(n)` and `parseInt(s, 10)` for the natural numbers: decimal digits as code units.
use zen_pm.Prelude.{
  ℕ, zero, suc, ◌+◌, ◌-◌, ◌*◌, ◌/◌, ◌%◌, ◌≤◌, ◌<◌, ◌≡◌, ◌≢◌, refl, ◌∙◌, ap, [], ◌∷◌, ◌++◌, Option,
  none, some, Bool, true, ◌&&◌, arith, Text, leb, ltb, if◌then◌else◌, All, Bool-cases, inl, inr,
}

-- The fuel `suc n` is more than the number of digits of `n`.
print_fuel : ℕ → ℕ → Text
print_fuel zero n = []
print_fuel (suc f) n =
    let front = print_fuel f (n / 10) in
    if ltb n 10 then (48 + n) ∷ [] else front ++ (48 + n % 10) ∷ []

unfoldable pub to_text : ℕ → Text
unfolding print_fuel
to_text n = print_fuel (suc n) n

abbrev is_digit : ℕ → Bool
is_digit c = leb 48 c && leb c 57

-- The number that the leading digits spell, after `acc`.
read_digits : ℕ → Text → ℕ
read_digits acc [] = acc
read_digits acc (c ∷ s) =
    let more = read_digits (acc * 10 + (c - 48)) s in if is_digit c then more else acc

-- `none` is NaN, for a text with no leading digit.
unfoldable pub parse_int : Text → Option ℕ
unfolding read_digits
parse_int [] = none
parse_int (c ∷ s) = if is_digit c then some (read_digits 0 (c ∷ s)) else none

abbrev IsDigit : ℕ → Type 0
IsDigit c = (48 ≤ c) × (c ≤ 57)

All-append-cons : (s : Text) (c : ℕ) → All IsDigit s → IsDigit c → All IsDigit (s ++ c ∷ [])
All-append-cons [] c h k = (k, tt)
All-append-cons (x ∷ s) c (p, h) k = (p, All-append-cons s c h k)

print_fuel-IsDigit : (f n : ℕ) → All IsDigit (print_fuel f n)
unfolding print_fuel
print_fuel-IsDigit zero n = tt
print_fuel-IsDigit (suc f) n = elim (Bool-cases (ltb n 10)) [
  | inl small ↦ rw small (omega (arith, ltb→lt' small), tt)
  | inr large ↦ rw large (All-append-cons _ _ (print_fuel-IsDigit f (n / 10)) (omega arith))
]
  where
    ltb→lt' : ltb n 10 ≡ true → n < 10
    ltb→lt' h = ground arith

pub to_text-IsDigit : (n : ℕ) → All IsDigit (to_text n)
unfolding to_text
to_text-IsDigit n = print_fuel-IsDigit (suc n) n

read_digits-concat :
    (s : Text) (acc c : ℕ)
    → All IsDigit s
    → IsDigit c
    → read_digits acc (s ++ c ∷ []) ≡ read_digits acc s * 10 + (c - 48)
unfolding read_digits
read_digits-concat [] acc c h k = ground arith
read_digits-concat (x ∷ s) acc c (p, h) k =
    ground (arith, read_digits-concat s (acc * 10 + (x - 48)) c h k)

read_digits-print_fuel : (f n : ℕ) → n < f → read_digits 0 (print_fuel f n) ≡ n
unfolding print_fuel
read_digits-print_fuel zero n h = elim h [ ]
read_digits-print_fuel (suc f) n h = elim (Bool-cases (ltb n 10)) [
  | inl small ↦ rw small (one_digit n small)
  | inr large ↦ rw large (
      read_digits-concat (print_fuel f (n / 10)) 0 (48 + n % 10) (print_fuel-IsDigit f (n / 10))
        (omega arith)
      ∙ rw (read_digits-print_fuel f (n / 10) (ground arith)) (omega arith))
]
  where
    one_digit : (m : ℕ) → ltb m 10 ≡ true → read_digits 0 ((48 + m) ∷ []) ≡ m
    one_digit m e = unfold read_digits in ground arith

parse_int_of_digits : (s : Text) → s ≢ [] → All IsDigit s → parse_int s ≡ some (read_digits 0 s)
unfolding parse_int
parse_int_of_digits [] h k = absurd (h refl)
parse_int_of_digits (c ∷ s) h (k, _) = ground arith

pub to_text-ne-nil : (n : ℕ) → to_text n ≢ []
unfolding to_text
to_text-ne-nil n e = not_nil n e
  where
    concat-ne : (s : Text) (c : ℕ) → s ++ c ∷ [] ≡ [] → ⊥
    concat-ne [] c h = cc
    concat-ne (x ∷ s) c h = cc

    not_nil : (m : ℕ) → print_fuel (suc m) m ≡ [] → ⊥
    not_nil m h = elim (Bool-cases (ltb m 10)) [
      | inl small ↦ cc (rw small at h)
      | inr large ↦ concat-ne _ _ (rw large at h)
    ]

-- Printing and parsing a natural number gives it back.
pub parse_int-to_text : (n : ℕ) → parse_int (to_text n) ≡ some n
parse_int-to_text n =
    parse_int_of_digits (to_text n) (to_text-ne-nil n) (to_text-IsDigit n)
    ∙ ap some (unfold to_text in read_digits-print_fuel (suc n) n (omega arith))

pub to_text_inj : (m n : ℕ) → to_text m ≡ to_text n → m ≡ n
to_text_inj m n e = cc (parse_int-to_text m, parse_int-to_text n, ap parse_int e)
