-- ===== src/Cards/Shape.antt =====
-- What the operations on the children of a container do to a list of the form `done ++ rest`,
-- where `done` holds the cards that are in place.
use zen_pm.Prelude.{
  ℕ, ◌<◌, ◌≡◌, ◌≢◌, refl, ap, List, [], ◌∷◌, ◌++◌, true, false, arith, ◌==◌, All, length, get_elem?,
  Bool-cases, inl, inr,
}
use mathlib.Core.List.{append_assoc, append-nil}
use zen_pm.Cards.{Card, is_child, remove_child, replace_child, place_before, settle}

-- No card of the list is the node `n`.
abbrev pub Apart : ℕ → List Card → Type 0
Apart n = All (λ c. c.node ≢ n)

abbrev pub DistinctNodes : List Card → Type 0
DistinctNodes [] = Unit
DistinctNodes (c ∷ cs) = Apart c.node cs × DistinctNodes cs

abbrev pub DistinctKeys : List Card → Type 0
DistinctKeys [] = Unit
DistinctKeys (c ∷ cs) = All (λ d. d.key ≢ c.key) cs × DistinctKeys cs

-- Only `card` itself is its node.
abbrev pub Owns : Card → List Card → Type 0
Owns card = All (λ c. c.node ≡ card.node → c ≡ card)

abbrev pub Disjoint : List Card → List Card → Type 0
Disjoint done = All (λ c. Apart c.node done)

abbrev pub Below : ℕ → List Card → Type 0
Below n = All (λ c. c.node < n)

pub ==_refl : (n : ℕ) → (n == n) ≡ true
==_refl n = ground arith

pub is_child-append :
    (n : ℕ) (done rest : List Card) → Apart n done → is_child n (done ++ rest) ≡ is_child n rest
is_child-append n [] rest h = refl
is_child-append n (c ∷ done) rest (p, h) = ground (arith, is_child-append n done rest h)

pub remove_child-append :
    (n : ℕ) (done rest : List Card)
    → Apart n done
    → remove_child n (done ++ rest) ≡ done ++ remove_child n rest
remove_child-append n [] rest h = refl
remove_child-append n (c ∷ done) rest (p, h) = ground (arith, remove_child-append n done rest h)

pub replace_child-append :
    (card : Card) (n : ℕ) (done rest : List Card)
    → Apart n done
    → replace_child card n (done ++ rest) ≡ done ++ replace_child card n rest
replace_child-append card n [] rest h = refl
replace_child-append card n (c ∷ done) rest (p, h) =
    ground (arith, replace_child-append card n done rest h)

place_before-append :
    (card c : Card) (done rest : List Card)
    → Apart c.node done
    → place_before card c.node (done ++ (c ∷ rest)) ≡ done ++ (card ∷ c ∷ rest)
place_before-append card c [] rest h = ground arith
place_before-append card c (d ∷ done) rest (p, h) =
    ground (arith, place_before-append card c done rest h)

pub get_elem?-append :
    (done rest : List Card) → get_elem? (done ++ rest) (length done) ≡ get_elem? rest 0
get_elem?-append [] rest = refl
get_elem?-append (c ∷ done) rest = get_elem?-append done rest

Apart-of_not_child : (n : ℕ) (cs : List Card) → is_child n cs ≡ false → Apart n cs
Apart-of_not_child n [] h = tt
Apart-of_not_child n (c ∷ cs) h = (ground arith, Apart-of_not_child n cs (ground arith))

pub remove_child-Apart : (n : ℕ) (cs : List Card) → Apart n cs → remove_child n cs ≡ cs
remove_child-Apart n [] h = refl
remove_child-Apart n (c ∷ cs) (p, h) = ground (arith, remove_child-Apart n cs h)

pub is_child-Apart : (n : ℕ) (cs : List Card) → Apart n cs → is_child n cs ≡ false
is_child-Apart n [] h = refl
is_child-Apart n (c ∷ cs) (p, h) = ground (arith, is_child-Apart n cs h)

-- A card that is a child already is moved, unless it stands at its place.
settle_child :
    (card c : Card) (done rest : List Card)
    → Apart card.node done
    → (c.node ≡ card.node → c ≡ card)
    → Apart c.node done
    → is_child card.node (c ∷ rest) ≡ true
    → settle (length done) card (done ++ (c ∷ rest))
      ≡ done ++ (card ∷ remove_child card.node (c ∷ rest))
unfolding settle
settle_child card c done rest h own apart inside =
    rw (is_child-append card.node done (c ∷ rest) h, inside, get_elem?-append done (c ∷ rest))
      (elim (Bool-cases (c.node == card.node)) [
        | inl here ↦ rw (here) (ap (λ d. done ++ (d ∷ rest)) (own (ground arith)))
        | inr away ↦
            rw (away, remove_child-append card.node done (c ∷ rest) h, away)
              (place_before-append card c done (remove_child card.node rest) apart)
      ])

pub settle_inside :
    (card : Card) (done rest : List Card)
    → Apart card.node done
    → Owns card rest
    → Disjoint done rest
    → is_child card.node rest ≡ true
    → settle (length done) card (done ++ rest) ≡ done ++ (card ∷ remove_child card.node rest)
settle_inside card done [] h own apart inside = cc
settle_inside card done (c ∷ rest) h own apart inside =
    settle_child card c done rest h own.0 apart.0 inside

-- A new card is appended, and then moved to its place.
pub settle_new :
    (card : Card) (done rest : List Card)
    → Apart card.node done
    → Apart card.node rest
    → Disjoint done rest
    → settle (length done) card (done ++ rest) ≡ done ++ (card ∷ rest)
unfolding settle
settle_new card done [] h k apart = rw (
  append-nil done,
  is_child-Apart card.node done h,
  get_elem?-append done (card ∷ []),
  ==_refl card.node,
)
settle_new card done (c ∷ rest) h k apart =
    rw
      (
        is_child-append card.node done (c ∷ rest) h,
        is_child-Apart card.node (c ∷ rest) k,
        append_assoc done (c ∷ rest) (card ∷ []),
        get_elem?-append done (c ∷ (rest ++ card ∷ [])),
        not_same,
        remove_child-append card.node done (c ∷ (rest ++ card ∷ [])) h,
        not_same,
        remove_child-append card.node rest (card ∷ []) k.1,
        ==_refl card.node,
        append-nil rest,
      )
      (place_before-append card c done rest apart.0)
  where
    not_same : (c.node == card.node) ≡ false
    not_same = ground arith
