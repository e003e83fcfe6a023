-- ===== src/Cards/Place.antt =====
-- One round of the second loop of `reconcilePackageCards`: the package's card goes behind those in
-- place, and its key out of the map.
use zen_pm.Prelude.{
  ℕ, suc, ◌≤◌, ◌<◌, ◌≡◌, ◌≢◌, sym, List, [], ◌∷◌, ◌++◌, Option, none, some, true, false, arith,
  Text, ◌==◌, if◌then◌else◌, All, Bool-cases, inl, inr, length,
}
use zen_pm.Package.{Package}
use zen_pm.Package.Signature.{package_card_signature}
use zen_pm.Cards.{
  Card, Container, replace_child, find_key, drop_key, signed_as, package_key, new_card, place,
}
use zen_pm.Cards.Shape.{
  Apart, DistinctNodes, DistinctKeys, Disjoint, Below, settle_inside, settle_new,
  replace_child-append, is_child-append,
}
use zen_pm.Cards.Keys.{
  All-find_key, All-drop_key, DistinctNodes-drop_key, DistinctKeys-drop_key, drop_key_of_none,
  drop_key_of_some, Apart-of_Below, replaced,
}

-- The cards of `done` are in place, those of `rest` are left of the old ones.
pub record InPlace (done rest : List Card) (fresh : ℕ) : Type 0 where
  pub nodes : DistinctNodes rest
  pub keys : DistinctKeys rest
  pub apart : Disjoint done rest
  pub done_nodes : DistinctNodes done
  pub done_below : Below fresh done
  pub rest_below : Below fresh rest

pub All-append {ℓ} :
    (P : Card → Type ℓ) (xs ys : List Card) → All P xs → All P ys → All P (xs ++ ys)
All-append P [] ys h k = k
All-append P (x ∷ xs) ys (p, h) k = (p, All-append P xs ys h k)

Below-mono : (n m : ℕ) (cs : List Card) → n ≤ m → Below n cs → Below m cs
Below-mono n m [] l h = tt
Below-mono n m (c ∷ cs) l (p, h) = (omega arith, Below-mono n m cs l h)

All-replace_child {ℓ} :
    (P : Card → Type ℓ) (card : Card) (n : ℕ) (cs : List Card)
    → P card
    → All P cs
    → All P (replace_child card n cs)
All-replace_child P card n [] p h = tt
All-replace_child P card n (c ∷ cs) p (q, h) = elim (Bool-cases (c.node == n)) [
  | inl here ↦ rw here (p, h)
  | inr later ↦ rw later (q, All-replace_child P card n cs p h)
]

-- One more card in place: the others stay apart from it.
Disjoint-concat :
    (done : List Card) (card : Card) (rest : List Card)
    → Disjoint done rest
    → Apart card.node rest
    → Disjoint (done ++ card ∷ []) rest
Disjoint-concat done card [] h k = tt
Disjoint-concat done card (c ∷ rest) (p, h) (q, k) = (
  All-append (λ d. d.node ≢ c.node) done (card ∷ []) p ((λ e. q (sym e)), tt),
  Disjoint-concat done card rest h k,
)

DistinctNodes-concat :
    (done : List Card) (card : Card)
    → DistinctNodes done
    → Apart card.node done
    → DistinctNodes (done ++ card ∷ [])
DistinctNodes-concat [] card h k = (tt, tt)
DistinctNodes-concat (c ∷ done) card (p, h) (q, k) = (
  All-append (λ d. d.node ≢ c.node) done (card ∷ []) p ((λ e. q (sym e)), tt),
  DistinctNodes-concat done card h k,
)

-- A card goes in place, its key out of the map.
advance :
    (k : Text) (card : Card) (done rest : List Card) (fresh fresh' : ℕ)
    → InPlace done rest fresh
    → Apart card.node done
    → Apart card.node (drop_key k rest)
    → fresh ≤ fresh'
    → card.node < fresh'
    → InPlace (done ++ card ∷ []) (drop_key k rest) fresh'
advance k card done rest fresh fresh' v o a l b = record {
  done_nodes = DistinctNodes-concat done card v.done_nodes o;
  nodes = DistinctNodes-drop_key k rest v.nodes;
  keys = DistinctKeys-drop_key k rest v.keys;
  apart =
      Disjoint-concat done card (drop_key k rest)
        (All-drop_key (λ c. Apart c.node done) k rest v.apart) a;
  done_below =
      All-append (λ c. c.node < fresh') done (card ∷ [])
        (Below-mono fresh fresh' done l v.done_below) (b, tt);
  rest_below =
      All-drop_key (λ c. c.node < fresh') k rest (Below-mono fresh fresh' rest l v.rest_below);
}

abbrev pub container : List Card → List Card → ℕ → Container
container done rest fresh = record { children = done ++ rest; existing = rest; fresh = fresh }

abbrev pub placed : List Card → Card → List Card → ℕ → Container
placed done card rest fresh = record {
  children = done ++ (card ∷ rest);
  existing = rest;
  fresh = fresh;
}

module _ (lower : Text → Text) (path : Text) where
  -- The card of a package: the one under its key if its signature is the package's, else a new one.
  unfoldable pub chosen : ℕ → Package → Option Card → ℕ → Card × ℕ
  chosen i pkg none fresh = (new_card lower path i pkg fresh, suc fresh)
  chosen i pkg (some card) fresh =
      if signed_as (package_card_signature pkg) card
      then (card, fresh)
      else (new_card lower path i pkg fresh, suc fresh)

  place-none :
      (pkg : Package) (done rest : List Card) (fresh : ℕ)
      → InPlace done rest fresh
      → find_key (package_key (length done) pkg) rest ≡ none
      → let card = new_card lower path (length done) pkg fresh in
        let rest' = drop_key (package_key (length done) pkg) rest in
        (place lower path (length done) pkg none (container done rest fresh)
          ≡ placed done card rest' (suc fresh))
        × InPlace (done ++ card ∷ []) rest' (suc fresh)
  unfolding place
  place-none pkg done rest fresh v e = (
    rw (
      settle_new (new_card lower path (length done) pkg fresh) done rest
          (Apart-of_Below fresh done v.done_below) (Apart-of_Below fresh rest v.rest_below) v.apart,
      drop_key_of_none (package_key (length done) pkg) rest e,
    ),
    advance (package_key (length done) pkg) (new_card lower path (length done) pkg fresh) done rest
        fresh (suc fresh) v (Apart-of_Below fresh done v.done_below)
        (All-drop_key (λ c. c.node ≢ fresh) _ rest (Apart-of_Below fresh rest v.rest_below))
        (omega arith) (omega arith),
  )

  place_kept :
      (pkg : Package) (done rest : List Card) (fresh : ℕ) (card : Card)
      → InPlace done rest fresh
      → find_key (package_key (length done) pkg) rest ≡ some card
      → signed_as (package_card_signature pkg) card ≡ true
      → let rest' = drop_key (package_key (length done) pkg) rest in
        (place lower path (length done) pkg (some card) (container done rest fresh)
          ≡ placed done card rest' fresh)
        × InPlace (done ++ card ∷ []) rest' fresh
  unfolding place
  place_kept pkg done rest fresh card v e same =
      let k = package_key (length done) pkg in
      let (a, b, own, apart) = drop_key_of_some k rest e v.nodes v.keys in
      (
        rw (
          same,
          settle_inside card done rest (All-find_key (λ c. Apart c.node done) k rest e v.apart) own
              v.apart b,
          a,
        ),
        advance k card done rest fresh fresh v
            (All-find_key (λ c. Apart c.node done) k rest e v.apart) apart (omega arith)
            (All-find_key (λ c. c.node < fresh) k rest e v.rest_below),
      )

  place_replaced :
      (pkg : Package) (done rest : List Card) (fresh : ℕ) (card : Card)
      → InPlace done rest fresh
      → find_key (package_key (length done) pkg) rest ≡ some card
      → signed_as (package_card_signature pkg) card ≡ false
      → let card' = new_card lower path (length done) pkg fresh in
        let rest' = drop_key (package_key (length done) pkg) rest in
        (place lower path (length done) pkg (some card) (container done rest fresh)
          ≡ placed done card' rest' (suc fresh))
        × InPlace (done ++ card' ∷ []) rest' (suc fresh)
  unfolding place
  place_replaced pkg done rest fresh card v e other =
      let k = package_key (length done) pkg in
      let card' = new_card lower path (length done) pkg fresh in
      let (a, b, _, _) = drop_key_of_some k rest e v.nodes v.keys in
      let away = All-find_key (λ c. Apart c.node done) k rest e v.apart in
      let (gone, inside, own) = replaced card' card.node rest v.rest_below b in
      (
        rw (
          other,
          is_child-append card.node done rest away,
          b,
          replace_child-append card' card.node done rest away,
          settle_inside card' done (replace_child card' card.node rest)
              (Apart-of_Below fresh done v.done_below) own
              (All-replace_child (λ c. Apart c.node done) card' card.node rest
                (Apart-of_Below fresh done v.done_below) v.apart)
              inside,
          gone,
          a,
        ),
        advance k card' done rest fresh (suc fresh) v (Apart-of_Below fresh done v.done_below)
            (All-drop_key (λ c. c.node ≢ fresh) k rest (Apart-of_Below fresh rest v.rest_below))
            (omega arith) (omega arith),
      )

  pub place_lem :
      (pkg : Package) (done rest : List Card) (fresh : ℕ) (o : Option Card)
      → InPlace done rest fresh
      → find_key (package_key (length done) pkg) rest ≡ o
      → let c = chosen (length done) pkg o fresh in
        let rest' = drop_key (package_key (length done) pkg) rest in
        (place lower path (length done) pkg o (container done rest fresh)
          ≡ placed done c.0 rest' c.1)
        × InPlace (done ++ c.0 ∷ []) rest' c.1
  unfolding chosen
  place_lem pkg done rest fresh none v e = place-none pkg done rest fresh v e
  place_lem pkg done rest fresh (some card) v e =
      elim (Bool-cases (signed_as (package_card_signature pkg) card)) [
        | inl same ↦ rw same (place_kept pkg done rest fresh card v e same)
        | inr other ↦ rw other (place_replaced pkg done rest fresh card v e other)
      ]
