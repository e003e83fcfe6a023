-- ===== src/Cards/Again.antt =====
-- Lemmas on one `reconcilePackageCards` (frontend/kindle/utils.js) after another.
use zen_pm.Prelude.{
  sym, ℕ, suc, ◌≡◌, ◌≢◌, refl, ◌∙◌, List, [], ◌∷◌, some, Text, ===_iff, ===_refl, All, map, ◌or◌,
}
use zen_pm.Decimal.{to_text, to_text-ne-nil}
use zen_pm.Package.{Package}
use zen_pm.Package.Signature.{package_card_signature}
use zen_pm.Cards.{Card, package_key, reconcile_package_cards}
use zen_pm.Cards.Shape.{DistinctKeys}
use zen_pm.Cards.Keys.{drop_key_absent}
use zen_pm.Cards.Place.{chosen}
use zen_pm.Cards.Reconcile.{expected, IsTidy, expected-nodes, reconcile_package_cards-expected}
use zen_pm.Cards.Content.{package_keys, reconcile_package_cards-keys}

abbrev pub DistinctTexts : List Text → Type 0
DistinctTexts [] = Unit
DistinctTexts (t ∷ ts) = All (λ u. u ≢ t) ts × DistinctTexts ts

-- No two packages of the list have the same key: the id, else the name, else the position.
abbrev pub HaveDistinctKeys : List Package → Type 0
HaveDistinctKeys packages = DistinctTexts (package_keys 0 packages)

or_ne-nil : (s t : Text) → t ≢ [] → (s or t) ≢ []
or_ne-nil [] t h = h
or_ne-nil (c ∷ s) t h = λ e. cc

package_key-ne-nil : (i : ℕ) (pkg : Package) → package_key i pkg ≢ []
unfolding package_key
package_key-ne-nil i pkg = or_ne-nil pkg.id _ (or_ne-nil pkg.name (to_text i) (to_text-ne-nil i))

package_keys-ne-nil :
    (i : ℕ) (packages : List Package) → All (λ k. k ≢ []) (package_keys i packages)
package_keys-ne-nil i [] = tt
package_keys-ne-nil i (pkg ∷ packages) =
    (package_key-ne-nil i pkg, package_keys-ne-nil (suc i) packages)

All-map-key :
    (P : Text → Type 0) (cards : List Card)
    → All P (map (λ c. c.key) cards)
    → All (λ c. P c.key) cards
All-map-key P [] h = tt
All-map-key P (c ∷ cards) (p, h) = (p, All-map-key P cards h)

DistinctKeys-of_texts :
    (cards : List Card) → DistinctTexts (map (λ c. c.key) cards) → DistinctKeys cards
DistinctKeys-of_texts [] h = tt
DistinctKeys-of_texts (c ∷ cards) (p, h) =
    (All-map-key (λ k. k ≢ c.key) cards p, DistinctKeys-of_texts cards h)

module _ (lower : Text → Text) (path : Text) where
  -- With distinct packages a tidy container stays tidy, so the next call finds it so.
  pub reconcile_package_cards-IsTidy :
      (packages : List Package) (children : List Card) (fresh : ℕ)
      → HaveDistinctKeys packages
      → IsTidy children fresh
      → let (cards, fresh') = reconcile_package_cards lower path packages children fresh in
        IsTidy cards fresh'
  reconcile_package_cards-IsTidy packages children fresh d t =
      let (keys, _) = reconcile_package_cards-keys lower path packages children fresh t in
      let (nodes, below) =
        rw (← reconcile_package_cards-expected lower path packages children fresh t) at
          (expected-nodes lower path packages children fresh t) in
      record {
        nodes = nodes;
        keys = DistinctKeys-of_texts _ (rw keys d);
        keyed = All-map-key (λ k. k ≢ []) _ (rw keys (package_keys-ne-nil 0 packages));
        below = below;
      }

  chosen_kept :
      (i : ℕ) (p : Package) (c : Card) (fresh : ℕ)
      → c.signature ≡ package_card_signature p
      → chosen lower path i p (some c) fresh ≡ (c, fresh)
  unfolding chosen
  chosen_kept i p c fresh e = rw (e, ===_refl (package_card_signature p))

  -- Cards that fit the packages are all kept.
  expected_again :
      (i : ℕ) (packages : List Package) (cards : List Card) (fresh : ℕ)
      → DistinctKeys cards
      → map (λ c. c.key) cards ≡ package_keys i packages
      → map (λ c. c.signature) cards ≡ map package_card_signature packages
      → expected lower path i packages cards fresh ≡ (cards, fresh)
  unfolding expected
  expected_again i [] [] fresh d k s = refl
  expected_again i [] (c ∷ cards) fresh d k s = cc
  expected_again i (p ∷ packages) [] fresh d k s = cc
  expected_again i (p ∷ packages) (c ∷ cards) fresh (p', d) k s =
      let same_key : c.key ≡ package_key i p = cc in
      let same_signature : c.signature ≡ package_card_signature p = cc in
      rw (
        (===_iff c.key (package_key i p)).1 same_key,
        drop_key_absent (package_key i p) cards (rw same_key at p'),
        chosen_kept i p c fresh same_signature,
        expected_again (suc i) packages cards fresh d (cc) (cc),
      )

  -- Packages with the same keys and signatures change nothing.
  pub reconcile_package_cards_again :
      (packages packages' : List Package) (children : List Card) (fresh : ℕ)
      → HaveDistinctKeys packages
      → IsTidy children fresh
      → package_keys 0 packages' ≡ package_keys 0 packages
      → map package_card_signature packages' ≡ map package_card_signature packages
      → let (cards, fresh') = reconcile_package_cards lower path packages children fresh in
        reconcile_package_cards lower path packages' cards fresh' ≡ (cards, fresh')
  reconcile_package_cards_again packages packages' children fresh d t k s =
      let t' = reconcile_package_cards-IsTidy packages children fresh d t in
      let (keys, signatures) = reconcile_package_cards-keys lower path packages children fresh t in
      reconcile_package_cards-expected lower path packages' _ _ t'
      ∙ expected_again 0 packages' _ _ t'.keys (keys ∙ sym k) (signatures ∙ sym s)

  -- Where no two packages of the list have the same key (the id, else the name, else the position),
  -- and the cards found in the container are tidy (each has a key that is not empty, no two share a
  -- key or an identity, every identity is below `fresh`), reconciling a second time with the same
  -- packages leaves every element of the container where it is: no card is made, moved or removed.
  pub reconcile_package_cards_idem :
      (packages : List Package) (children : List Card) (fresh : ℕ)
      → HaveDistinctKeys packages
      → IsTidy children fresh
      → let (cards, fresh') = reconcile_package_cards lower path packages children fresh in
        reconcile_package_cards lower path packages cards fresh' ≡ (cards, fresh')
  reconcile_package_cards_idem packages children fresh d t =
      reconcile_package_cards_again packages packages children fresh d t refl refl
