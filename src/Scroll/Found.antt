-- ===== src/Scroll/Found.antt =====
-- Lemmas on currentCardIndex and goCard of frontend/kindle/utils.js.
use zen_pm.Prelude.{
  ℕ, zero, suc, ◌+◌, ◌-◌, ◌≤◌, ◌<◌, ◌≡◌, refl, ap, ◌∙◌, List, [], ◌∷◌, none, some, Bool-cases, inl,
  inr, ◌⊎◌, leb, leb→le, Option-cases, get_elem?, length, All, arith,
}
use zen_pm.Scroll.{Cell, Scroll, least, offset_of, goal, last_above, or_first}

-- Each card begins more than 10 pixels below the one before it.
abbrev pub IsRising : List Cell → Type 0
IsRising [] = Unit
IsRising (c ∷ cs) = All (λ d. c.offset_top + 10 < d.offset_top) cs × IsRising cs

pub last_above-none :
    (bottom i : ℕ) (cs : List Cell)
    → All (λ d. bottom < d.offset_top) cs
    → last_above bottom i cs ≡ none
last_above-none bottom i [] h = refl
last_above-none bottom i (c ∷ cs) (p, h) = ground (arith, last_above-none bottom (suc i) cs h)

All-weaken :
    (a b : ℕ) (cs : List Cell)
    → a ≤ b
    → All (λ d. b < d.offset_top) cs
    → All (λ d. a < d.offset_top) cs
All-weaken a b [] l h = tt
All-weaken a b (c ∷ cs) l (p, h) = (omega arith, All-weaken a b cs l h)

-- The card that is found is number `k`, where it begins no lower than `bottom`, and no higher than
-- 10 pixels above.
pub last_above_at :
    (bottom i k : ℕ) (cs : List Cell) {c : Cell}
    → IsRising cs
    → get_elem? cs k ≡ some c
    → c.offset_top ≤ bottom
    → bottom ≤ c.offset_top + 10
    → last_above bottom i cs ≡ some (i + k)
last_above_at bottom i k [] r e l u = cc
last_above_at bottom i zero (d ∷ cs) {c} (a, r) e l u =
    let same : d ≡ c = cc in
    let off : d.offset_top ≡ c.offset_top = ap (λ x. x.offset_top) same in
    let below =
      last_above-none bottom (suc i) cs
        (All-weaken bottom (d.offset_top + 10) cs (omega (arith, u, off)) a) in
    rw below (ground (arith, off))
last_above_at bottom i (suc k) (d ∷ cs) {c} (a, r) e l u =
    ground (arith, last_above_at bottom (suc i) k cs {c = c} r e l u)

pub get_elem?-lt : (k : ℕ) (cs : List Cell) {c : Cell} → get_elem? cs k ≡ some c → k < length cs
get_elem?-lt k [] e = cc
get_elem?-lt zero (d ∷ cs) e = omega arith
get_elem?-lt (suc k) (d ∷ cs) e = omega (arith, get_elem?-lt k cs e)

pub least_last : (n k : ℕ) → k < n → least (n - 1) k ≡ k
least_last n k l = ground arith

pub least_zero : (n : ℕ) → least 0 n ≡ 0
least_zero n = ground arith

-- At the top the first card is found, wherever it begins.
pub first_found :
    (c : Cell) (cs : List Cell) → IsRising (c ∷ cs) → or_first (last_above 10 0 (c ∷ cs)) ≡ 0
first_found c cs (a, r) =
    let below = last_above-none 10 1 cs (All-weaken 10 (c.offset_top + 10) cs (omega arith) a) in
    rw below (ground arith)

pub found_at :
    (s : Scroll) (k : ℕ) (cs : List Cell) {c : Cell}
    → IsRising cs
    → get_elem? cs k ≡ some c
    → c.offset_top ≤ s.max_top + 10
    → or_first (last_above (least (goal k cs) s.max_top + 10) 0 cs) ≡ k
found_at s k [] r e l = cc
found_at s zero (d ∷ cs) r e l =
    ap (λ b. or_first (last_above (b + 10) 0 (d ∷ cs))) (least_zero s.max_top) ∙ first_found d cs r
found_at s (suc k) (d ∷ cs) {c} r e l =
    let here : get_elem? cs k ≡ some c = e in
    ap (λ o. or_first (last_above (least (offset_of o) s.max_top + 10) 0 (d ∷ cs))) here
    ∙ ap or_first (
        last_above_at (least c.offset_top s.max_top + 10) 0 (suc k) (d ∷ cs) {c = c} r e
          (ground arith) (ground arith))
    ∙ (let z : 0 + suc k ≡ suc k = omega arith in z)

pub found_first :
    (s : Scroll) (cs : List Cell)
    → IsRising cs
    → or_first (last_above (least (goal 0 cs) s.max_top + 10) 0 cs) ≡ 0
found_first s [] r = refl
found_first s (d ∷ cs) r =
    ap (λ b. or_first (last_above (b + 10) 0 (d ∷ cs))) (least_zero s.max_top) ∙ first_found d cs r

pub last_above_sound :
    (bottom i j : ℕ) (cs : List Cell)
    → last_above bottom i cs ≡ some j
    → (k : ℕ) × (c : Cell) × (j ≡ i + k) × (get_elem? cs k ≡ some c) × (c.offset_top ≤ bottom)
last_above_sound bottom i j [] e = cc
last_above_sound bottom i j (d ∷ cs) e = elim (Option-cases (last_above bottom (suc i) cs)) [
  | inr (j', f) ↦
      let (k, c, p, q, l) = last_above_sound bottom (suc i) j' cs f in
      let same : j' ≡ j = injected (rw f at e) in (suc k, c, omega (arith, same, p), q, l)
  | inl f ↦ elim (Bool-cases (leb d.offset_top bottom)) [
    | inl high ↦
        let same : i ≡ j = injected (rw (f, high) at e) in
        (0, d, omega (arith, same), refl, leb→le d.offset_top bottom high)
    | inr low ↦ absurd (missing (rw (f, low) at e))
  ]
]
  where
    injected : {a b : ℕ} → some a ≡ some b → a ≡ b
    injected h = cc

    missing : {b : ℕ} → none ≡ some b → ⊥
    missing h = cc

-- The current card is the first, or one that begins no lower than 10 pixels below the top.
pub current_cases :
    (bottom : ℕ) (cs : List Cell)
    → let k = or_first (last_above bottom 0 cs) in
      (k ≡ 0) ⊎ ((c : Cell) × (get_elem? cs k ≡ some c) × (c.offset_top ≤ bottom))
current_cases bottom cs = elim (Option-cases (last_above bottom 0 cs)) [
  | inl e ↦ rw e (inl refl)
  | inr (j, e) ↦
      let (k, c, p, q, l) = last_above_sound bottom 0 j cs e in
      let same : k ≡ j = omega (arith, p) in rw e (inr (c, rw same at q, l))
]
