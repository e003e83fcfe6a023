-- ===== src/Cards/Keys.antt =====
-- The cards under their keys: what `existing` finds, and what is left once an entry is null.
use zen_pm.Prelude.{
  ℕ, ◌≡◌, ◌≢◌, refl, sym, List, [], ◌∷◌, none, some, true, false, arith, Text, ◌===◌, ===_iff,
  ===_sound, ◌==◌, All, Bool-cases, inl, inr,
}
use zen_pm.Cards.{Card, is_child, remove_child, replace_child, find_key, drop_key}
use zen_pm.Cards.Shape.{Apart, DistinctNodes, DistinctKeys, Owns, Below}

module _ {ℓ} (P : Card → Type ℓ) (k : Text) where
  pub All-find_key : (cs : List Card) {card : Card} → find_key k cs ≡ some card → All P cs → P card
  All-find_key [] e h = cc
  All-find_key (c ∷ cs) {card} e (p, h) = elim (Bool-cases (c.key === k)) [
    | inl here ↦ (let q : c ≡ card = ground arith in rw q at p)
    | inr later ↦ All-find_key cs (rw later at e) h
  ]

  pub All-drop_key : (cs : List Card) → All P cs → All P (drop_key k cs)
  All-drop_key [] h = tt
  All-drop_key (c ∷ cs) (p, h) = elim (Bool-cases (c.key === k)) [
    | inl here ↦ rw here (All-drop_key cs h)
    | inr other ↦ rw other (p, All-drop_key cs h)
  ]

pub DistinctNodes-drop_key :
    (k : Text) (cs : List Card) → DistinctNodes cs → DistinctNodes (drop_key k cs)
DistinctNodes-drop_key k [] h = tt
DistinctNodes-drop_key k (c ∷ cs) (p, h) = elim (Bool-cases (c.key === k)) [
  | inl here ↦ rw here (DistinctNodes-drop_key k cs h)
  | inr other ↦ rw other (All-drop_key (λ d. d.node ≢ c.node) k cs p, DistinctNodes-drop_key k cs h)
]

pub DistinctKeys-drop_key :
    (k : Text) (cs : List Card) → DistinctKeys cs → DistinctKeys (drop_key k cs)
DistinctKeys-drop_key k [] h = tt
DistinctKeys-drop_key k (c ∷ cs) (p, h) = elim (Bool-cases (c.key === k)) [
  | inl here ↦ rw here (DistinctKeys-drop_key k cs h)
  | inr other ↦ rw other (All-drop_key (λ d. d.key ≢ c.key) k cs p, DistinctKeys-drop_key k cs h)
]

pub drop_key_of_none : (k : Text) (cs : List Card) → find_key k cs ≡ none → drop_key k cs ≡ cs
drop_key_of_none k [] e = refl
drop_key_of_none k (c ∷ cs) e = ground (arith, drop_key_of_none k cs)

pub drop_key_absent : (k : Text) (cs : List Card) → All (λ c. c.key ≢ k) cs → drop_key k cs ≡ cs
drop_key_absent k [] h = refl
drop_key_absent k (c ∷ cs) (p, h) = ground (arith, ===_iff c.key k, drop_key_absent k cs h)

pub Owns-of_Apart : (card : Card) (cs : List Card) → Apart card.node cs → Owns card cs
Owns-of_Apart card [] h = tt
Owns-of_Apart card (c ∷ cs) (p, h) = (λ e. absurd (p e), Owns-of_Apart card cs h)

pub Apart-of_Below : (n : ℕ) (cs : List Card) → Below n cs → Apart n cs
Apart-of_Below n [] h = tt
Apart-of_Below n (c ∷ cs) (p, h) = (λ e. omega arith, Apart-of_Below n cs h)

-- With distinct keys the entry is the only card under its key, and taking it out of the map and
-- out of the container is the same.
pub drop_key_of_some :
    (k : Text) (cs : List Card) {card : Card}
    → find_key k cs ≡ some card
    → DistinctNodes cs
    → DistinctKeys cs
    → (drop_key k cs ≡ remove_child card.node cs)
      × (is_child card.node cs ≡ true)
      × Owns card cs
      × Apart card.node (drop_key k cs)
drop_key_of_some k [] e h g = cc
drop_key_of_some k (c ∷ cs) {card} e (p, h) (q, g) = elim (Bool-cases (c.key === k)) [
  | inl here ↦ at_head here
  | inr later ↦ in_tail later (rw later at e) (drop_key_of_some k cs (rw later at e) h g)
]
  where
    at_head :
        (c.key === k) ≡ true
        → (drop_key k (c ∷ cs) ≡ remove_child card.node (c ∷ cs))
          × (is_child card.node (c ∷ cs) ≡ true)
          × Owns card (c ∷ cs)
          × Apart card.node (drop_key k (c ∷ cs))
    at_head here =
        let same : c ≡ card = ground arith in
        let rest : drop_key k cs ≡ cs = drop_key_absent k cs (rw (===_sound c.key k here) at q) in
        (
          ground arith,
          ground arith,
          (λ _. same, Owns-of_Apart card cs (rw same at p)),
          rw (here, rest) (rw same at p),
        )

    in_tail :
        (c.key === k) ≡ false
        → find_key k cs ≡ some card
        → (drop_key k cs ≡ remove_child card.node cs)
          × (is_child card.node cs ≡ true)
          × Owns card cs
          × Apart card.node (drop_key k cs)
        → (drop_key k (c ∷ cs) ≡ remove_child card.node (c ∷ cs))
          × (is_child card.node (c ∷ cs) ≡ true)
          × Owns card (c ∷ cs)
          × Apart card.node (drop_key k (c ∷ cs))
    in_tail later e' (a, b, own, apart) =
        let other : card.node ≢ c.node = All-find_key (λ d. d.node ≢ c.node) k cs e' p in
        (
          ground arith,
          ground arith,
          ((λ n. absurd (ground arith)), own),
          rw later ((λ n. other (sym n)), apart),
        )

-- What replacing the card by a new one, of a free identity, leaves behind.
pub replaced :
    (card' : Card) (n : ℕ) (cs : List Card)
    → Below card'.node cs
    → is_child n cs ≡ true
    → (remove_child card'.node (replace_child card' n cs) ≡ remove_child n cs)
      × (is_child card'.node (replace_child card' n cs) ≡ true)
      × Owns card' (replace_child card' n cs)
replaced card' n [] h i = cc
replaced card' n (c ∷ cs) (p, h) i = elim (Bool-cases (c.node == n)) [
  | inl here ↦ rw here (
    ground arith,
    ground arith,
    (λ _. refl, Owns-of_Apart card' cs (Apart-of_Below card'.node cs h)),
  )
  | inr later ↦
      let (a, b, own) = replaced card' n cs h (rw later at i) in
      rw later (ground arith, ground arith, (λ e. absurd (omega arith), own))
]
