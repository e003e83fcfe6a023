-- ===== src/Strings/Laws.antt =====
-- What the string methods do on texts that are put together.
use zen_pm.Prelude.{
  ℕ, zero, suc, ◌≡◌, ◌≢◌, refl, ap, [], ◌∷◌, ◌++◌, none, some, Text, length, arith, All,
}
use zen_pm.Strings.{index_of, take, drop, split}

pub take-append-drop : (n : ℕ) (s : Text) → take n s ++ drop n s ≡ s
unfolding take drop
take-append-drop zero s = refl
take-append-drop (suc n) [] = refl
take-append-drop (suc n) (c ∷ s) = ap (c ∷◌) (take-append-drop n s)

pub take-append : (s t : Text) → take (length s) (s ++ t) ≡ s
unfolding take
take-append [] t = refl
take-append (c ∷ s) t = ap (c ∷◌) (take-append s t)

pub drop-append : (s t : Text) → drop (length s) (s ++ t) ≡ t
unfolding drop
drop-append [] t = refl
drop-append (c ∷ s) t = drop-append s t

-- A text without the character `c`.
abbrev pub Without : ℕ → Text → Type 0
Without c = All (λ d. d ≢ c)

pub index_of-Without : (c : ℕ) (s : Text) → Without c s → index_of (c ∷ []) s ≡ none
unfolding index_of
index_of-Without c [] h = refl
index_of-Without c (d ∷ s) (p, h) = ground (arith, index_of-Without c s h)

pub index_of-append-cons :
    (c : ℕ) (s t : Text) → Without c s → index_of (c ∷ []) (s ++ c ∷ t) ≡ some (length s)
unfolding index_of
index_of-append-cons c [] t h = ground arith
index_of-append-cons c (d ∷ s) t (p, h) = ground (arith, index_of-append-cons c s t h)

pub split-Without : (c : ℕ) (s : Text) → Without c s → split c s ≡ s ∷ []
unfolding split
split-Without c [] h = refl
split-Without c (d ∷ s) (p, h) = ground (arith, split-Without c s h)

pub split-ne-nil : (c : ℕ) (s : Text) → split c s ≢ []
unfolding split
split-ne-nil c [] e = cc
split-ne-nil c (d ∷ s) e = ground arith

pub split-append-cons : (c : ℕ) (s t : Text) → Without c s → split c (s ++ c ∷ t) ≡ s ∷ split c t
unfolding split
split-append-cons c [] t h = ground (arith, split-ne-nil c t)
split-append-cons c (d ∷ s) t (p, h) = ground (arith, split-append-cons c s t h)
