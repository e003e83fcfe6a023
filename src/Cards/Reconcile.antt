-- ===== src/Cards/Reconcile.antt =====
-- `reconcilePackageCards` of frontend/kindle/utils.js against a function on lists, `expected`.
use zen_pm.Prelude.{
  ℕ, suc, ◌≡◌, ◌≢◌, refl, sym, ap, ◌∙◌, List, [], ◌∷◌, ◌++◌, true, arith, Text, All, length, truthy,
  length-append,
}
use mathlib.Core.List.{append_assoc, append-nil}
use zen_pm.Package.{Package}
use zen_pm.Cards.{
  Card, find_key, drop_key, register, package_key, place_all, remove_all, reconcile_package_cards,
}
use zen_pm.Cards.Shape.{
  DistinctNodes, DistinctKeys, Disjoint, Below, remove_child-append, ==_refl, is_child-append,
}
use zen_pm.Cards.Keys.{drop_key_absent}
use zen_pm.Cards.Place.{InPlace, chosen, container, place_lem, All-append}

length-concat : (cs : List Card) (card : Card) → length (cs ++ card ∷ []) ≡ suc (length cs)
length-concat cs card = omega (arith, length-append cs (card ∷ []))

module _ (lower : Text → Text) (path : Text) where
  unfoldable pub expected : ℕ → List Package → List Card → ℕ → List Card × ℕ
  expected i [] old fresh = ([], fresh)
  expected i (pkg ∷ packages) old fresh =
      let k = package_key i pkg in
      let (card, fresh') = chosen lower path i pkg (find_key k old) fresh in
      let (cards, fresh'') = expected (suc i) packages (drop_key k old) fresh' in
      (card ∷ cards, fresh'')

  -- The old cards whose key no package has.
  leftover : ℕ → List Package → List Card → List Card
  leftover i [] old = old
  leftover i (pkg ∷ packages) old = leftover (suc i) packages (drop_key (package_key i pkg) old)

  place_all_lem :
      (packages : List Package) (done rest : List Card) (fresh : ℕ)
      → InPlace done rest fresh
      → let (cards, fresh') = expected (length done) packages rest fresh in
        let rest' = leftover (length done) packages rest in
        (place_all lower path (length done) packages (container done rest fresh)
          ≡ container (done ++ cards) rest' fresh')
        × InPlace (done ++ cards) rest' fresh'
  unfolding place_all expected leftover
  place_all_lem [] done rest fresh v = rw (append-nil done) (refl, v)
  place_all_lem (pkg ∷ packages) done rest fresh v =
      let k = package_key (length done) pkg in
      let c = chosen lower path (length done) pkg (find_key k rest) fresh in
      let (e, v') = place_lem lower path pkg done rest fresh (find_key k rest) v refl in
      let ih = place_all_lem packages (done ++ c.0 ∷ []) (drop_key k rest) c.1 v' in
      rw e (simp append_assoc (simp (length-concat, append_assoc) at ih))

-- What `reconcilePackageCards` needs of the children that it finds: each has a key, no two share a
-- key or an identity, and every identity is below `fresh`, the next one to be given.
pub record IsTidy (children : List Card) (fresh : ℕ) : Type 0 where
  pub nodes : DistinctNodes children
  pub keys : DistinctKeys children
  pub keyed : All (λ c. c.key ≢ []) children
  pub below : Below fresh children

abbrev NewKeys : List Card → List Card → Type 0
NewKeys existing = All (λ c. All (λ d. d.key ≢ c.key) existing)

NewKeys-concat :
    (existing : List Card) (card : Card) (cs : List Card)
    → NewKeys existing cs
    → All (λ d. d.key ≢ card.key) cs
    → NewKeys (existing ++ card ∷ []) cs
NewKeys-concat existing card [] h k = tt
NewKeys-concat existing card (c ∷ cs) (p, h) (q, k) = (
  All-append (λ d. d.key ≢ c.key) existing (card ∷ []) p ((λ e. q (sym e)), tt),
  NewKeys-concat existing card cs h k,
)

truthy_of_ne : (s : Text) → s ≢ [] → truthy s ≡ true
truthy_of_ne [] h = absurd (h refl)
truthy_of_ne (c ∷ s) h = refl

NewKeys-nil : (cs : List Card) → NewKeys [] cs
NewKeys-nil [] = tt
NewKeys-nil (c ∷ cs) = (tt, NewKeys-nil cs)

register_lem :
    (existing cs : List Card)
    → NewKeys existing cs
    → DistinctKeys cs
    → All (λ c. c.key ≢ []) cs
    → register existing cs ≡ existing ++ cs
unfolding register
register_lem existing [] a h k = sym (append-nil existing)
register_lem existing (c ∷ cs) (a, as') (p, h) (t, k) =
    rw (truthy_of_ne c.key t, drop_key_absent c.key existing a)
      (register_lem (existing ++ c ∷ []) cs (NewKeys-concat existing c cs as' p) h k
        ∙ append_assoc existing (c ∷ []) cs)

remove_all_lem :
    (done rest : List Card) → Disjoint done rest → remove_all rest (done ++ rest) ≡ done
unfolding remove_all
remove_all_lem done [] h = append-nil done
remove_all_lem done (c ∷ rest) (p, h) =
    rw
      (
        is_child-append c.node done (c ∷ rest) p,
        ==_refl c.node,
        remove_child-append c.node done (c ∷ rest) p,
        ==_refl c.node,
      )
      (remove_all_lem done rest h)

Disjoint-nil : (cs : List Card) → Disjoint [] cs
Disjoint-nil [] = tt
Disjoint-nil (c ∷ cs) = (tt, Disjoint-nil cs)

IsTidy-InPlace :
    (children : List Card) (fresh : ℕ) → IsTidy children fresh → InPlace [] children fresh
IsTidy-InPlace children fresh t = record {
  nodes = t.nodes;
  keys = t.keys;
  apart = Disjoint-nil children;
  done_nodes = tt;
  done_below = tt;
  rest_below = t.below;
}

-- The cards of the result are distinct elements.
pub expected-nodes :
    (lower : Text → Text) (path : Text) (packages : List Package) (children : List Card) (fresh : ℕ)
    → IsTidy children fresh
    → let (cards, fresh') = expected lower path 0 packages children fresh in
      DistinctNodes cards × Below fresh' cards
expected-nodes lower path packages children fresh t =
    let (_, v) =
      place_all_lem lower path packages [] children fresh (IsTidy-InPlace children fresh t) in
    (v.done_nodes, v.done_below)

-- Where the cards found in the container are tidy, that is, each has a key that is not empty, no two
-- share a key or an identity, and every identity has been given out (it is below `fresh`), the
-- container ends up with the cards that `expected` lists, in their order and no others: for each
-- package the old element under its key if that has its signature and no earlier package of the list
-- has the same key, else a new one.
pub reconcile_package_cards-expected :
    (lower : Text → Text) (path : Text) (packages : List Package) (children : List Card) (fresh : ℕ)
    → IsTidy children fresh
    → reconcile_package_cards lower path packages children fresh
      ≡ expected lower path 0 packages children fresh
unfolding reconcile_package_cards
reconcile_package_cards-expected lower path packages children fresh t =
    let (e, v') =
      place_all_lem lower path packages [] children fresh (IsTidy-InPlace children fresh t) in
    rw (register_lem [] children (NewKeys-nil children) t.keys t.keyed, e)
      (ap (λ cs. (cs, (expected lower path 0 packages children fresh).1))
        (remove_all_lem _ _ v'.apart))
