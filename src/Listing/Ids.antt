-- ===== src/Listing/Ids.antt =====
-- The ids of a list of packages, by which its cards are told apart.
use zen_pm.Prelude.{
  ℕ, suc, ◌≡◌, ◌≢◌, refl, List, [], ◌∷◌, Bool-cases, inl, inr, Bool, true, Text, All, select, ◌or◌,
}
use zen_pm.Package.{Package}
use zen_pm.Cards.{package_key}
use zen_pm.Cards.Content.{package_keys}
use zen_pm.Cards.Again.{DistinctTexts, HaveDistinctKeys}
use zen_pm.Session.{Answer, loaded}

-- The ids of the packages, which the daemon's table of packages keeps apart.
abbrev pub HaveDistinctIds : List Package → Type 0
HaveDistinctIds [] = Unit
HaveDistinctIds (p ∷ packages) =
    (p.id ≢ []) × All (λ q. q.id ≢ p.id) packages × HaveDistinctIds packages

pub All-select :
    {A : Type 0} (P : A → Type 0) (keep : A → Bool) (xs : List A)
    → All P xs
    → All P (select keep xs)
All-select P keep [] h = tt
All-select P keep (x ∷ xs) (p, h) = elim (Bool-cases (keep x)) [
  | inl kept ↦ rw kept (p, All-select P keep xs h)
  | inr left ↦ rw left (All-select P keep xs h)
]

pub All-select_self :
    {A : Type 0} (keep : A → Bool) (xs : List A) → All (λ x. keep x ≡ true) (select keep xs)
All-select_self keep [] = tt
All-select_self keep (x ∷ xs) = elim (Bool-cases (keep x)) [
  | inl kept ↦ rw kept (kept, All-select_self keep xs)
  | inr left ↦ rw left (All-select_self keep xs)
]

pub select-HaveDistinctIds :
    (keep : Package → Bool) (packages : List Package)
    → HaveDistinctIds packages
    → HaveDistinctIds (select keep packages)
select-HaveDistinctIds keep [] h = tt
select-HaveDistinctIds keep (p ∷ packages) (n, a, h) = elim (Bool-cases (keep p)) [
  | inl kept ↦
      rw kept
        (n, All-select (λ q. q.id ≢ p.id) keep packages a, select-HaveDistinctIds keep packages h)
  | inr left ↦ rw left (select-HaveDistinctIds keep packages h)
]

key_of_id : (i : ℕ) (p : Package) → p.id ≢ [] → package_key i p ≡ p.id
unfolding package_key
key_of_id i p n = nonempty_or p.id _ n
  where
    nonempty_or : (s u : Text) → s ≢ [] → (s or u) ≡ s
    nonempty_or [] u h = absurd (h refl)
    nonempty_or (c ∷ s) u h = refl

pub HaveDistinctKeys-of_ids :
    (packages : List Package) → HaveDistinctIds packages → HaveDistinctKeys packages
HaveDistinctKeys-of_ids packages h = from 0 packages h
  where
    others :
        (i : ℕ) (k : Text) (qs : List Package)
        → HaveDistinctIds qs
        → All (λ q. q.id ≢ k) qs
        → All (λ u. u ≢ k) (package_keys i qs)
    others i k [] d h = tt
    others i k (q ∷ qs) (n, _, d) (m, h) = (rw (key_of_id i q n) m, others (suc i) k qs d h)

    from : (i : ℕ) (ps : List Package) → HaveDistinctIds ps → DistinctTexts (package_keys i ps)
    from i [] h = tt
    from i (p ∷ ps) (n, a, h) =
        (rw (key_of_id i p n) (others (suc i) p.id ps h a), from (suc i) ps h)

-- The daemon lists packages with distinct ids.
abbrev pub IsDistinct : Answer → Type 0
IsDistinct (loaded packages) = HaveDistinctIds packages
IsDistinct _ = Unit
