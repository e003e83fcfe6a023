-- ===== src/Cards/Content.antt =====
-- What the reader sees after `reconcilePackageCards`.
use zen_pm.Prelude.{
  ℕ, suc, ◌≡◌, refl, sym, ap₂, ◌∙◌, List, [], ◌∷◌, Option, none, some, Text, ◌===◌, ===_sound, All,
  Bool-cases, inl, inr, map, first-eq_some,
}
use zen_pm.Package.{Package}
use zen_pm.Repos.{
  bundled_repo_icon, package_version_prefix_text, package_repo_verified,
  package_repo_verification_icon, package_repo_verification_label,
}
use zen_pm.Package.Signature.{package_card_signature, package_card_signature_inj}
use zen_pm.Cards.{Card, find_key, signed_as, package_key, new_card, reconcile_package_cards}
use zen_pm.Cards.Render.{View, render_package_card}
use zen_pm.Cards.Keys.{All-find_key, All-drop_key}
use zen_pm.Cards.Place.{chosen}
use zen_pm.Cards.Reconcile.{expected, IsTidy, reconcile_package_cards-expected}

-- The keys of packages that stand at the indices from `i` on.
abbrev pub package_keys : ℕ → List Package → List Text
package_keys i [] = []
package_keys i (pkg ∷ packages) = package_key i pkg ∷ package_keys (suc i) packages

-- What the card was made for is what it holds.
pub record IsFaithful (lower : Text → Text) (path : Text) (card : Card) : Type 0 where
  pub signed : card.signature ≡ package_card_signature card.shown
  pub drawn : card.view ≡ render_package_card lower path card.shown

module _ (lower : Text → Text) (path : Text) where
  new_card-IsFaithful :
      (i : ℕ) (pkg : Package) (fresh : ℕ) → IsFaithful lower path (new_card lower path i pkg fresh)
  unfolding new_card
  new_card-IsFaithful i pkg fresh = record { signed = refl; drawn = refl }

  chosen-key :
      (i : ℕ) (pkg : Package) (old : List Card) (fresh : ℕ)
      → (chosen lower path i pkg (find_key (package_key i pkg) old) fresh).0.key ≡ package_key i pkg
  chosen-key i pkg old fresh = by_case (find_key (package_key i pkg) old) refl
    where
      by_case :
          (o : Option Card)
          → find_key (package_key i pkg) old ≡ o
          → (chosen lower path i pkg o fresh).0.key ≡ package_key i pkg
      by_case none e = unfold chosen new_card in refl
      by_case (some card) e =
          unfold chosen new_card in
          (elim (Bool-cases (signed_as (package_card_signature pkg) card)) [
            | inl same ↦
                rw same (===_sound _ _ (first-eq_some (λ c. c.key === package_key i pkg) old e))
            | inr other ↦ rw other
          ])

  chosen-signature :
      (i : ℕ) (pkg : Package) (o : Option Card) (fresh : ℕ)
      → (chosen lower path i pkg o fresh).0.signature ≡ package_card_signature pkg
  unfolding chosen new_card
  chosen-signature i pkg none fresh = refl
  chosen-signature i pkg (some card) fresh =
      elim (Bool-cases (signed_as (package_card_signature pkg) card)) [
        | inl same ↦ rw same (===_sound _ _ same)
        | inr other ↦ rw other
      ]

  expected-key :
      (i : ℕ) (packages : List Package) (old : List Card) (fresh : ℕ)
      → map (λ c. c.key) (expected lower path i packages old fresh).0 ≡ package_keys i packages
  unfolding expected
  expected-key i [] old fresh = refl
  expected-key i (pkg ∷ packages) old fresh =
      ap₂ ◌∷◌ (chosen-key i pkg old fresh) (expected-key (suc i) packages _ _)

  expected-signature :
      (i : ℕ) (packages : List Package) (old : List Card) (fresh : ℕ)
      → map (λ c. c.signature) (expected lower path i packages old fresh).0
        ≡ map package_card_signature packages
  unfolding expected
  expected-signature i [] old fresh = refl
  expected-signature i (pkg ∷ packages) old fresh =
      ap₂ ◌∷◌ (chosen-signature i pkg _ fresh) (expected-signature (suc i) packages _ _)

  -- Where the cards found in the container are tidy (each has a key that is not empty, no two share a
  -- key or an identity, every identity is below `fresh`), the container ends up with one card for
  -- each package, in the order of the packages, with the package's key and signature, and with
  -- nothing else.
  pub reconcile_package_cards-keys :
      (packages : List Package) (children : List Card) (fresh : ℕ)
      → IsTidy children fresh
      → let cards = (reconcile_package_cards lower path packages children fresh).0 in
        (map (λ c. c.key) cards ≡ package_keys 0 packages)
        × (map (λ c. c.signature) cards ≡ map package_card_signature packages)
  reconcile_package_cards-keys packages children fresh t =
      rw (reconcile_package_cards-expected lower path packages children fresh t)
        (expected-key 0 packages children fresh, expected-signature 0 packages children fresh)

-- A view but for the package's own image.
abbrev pub without_image : View → View
without_image v = record v { image = [] }

-- The signature covers all that a card displays but the image.
pub render_package_card-signature :
    (lower : Text → Text) (path : Text) (p q : Package)
    → package_card_signature p ≡ package_card_signature q
    → without_image (render_package_card lower path p)
      ≡ without_image (render_package_card lower path q)
unfolding render_package_card bundled_repo_icon package_version_prefix_text package_repo_verified
    package_repo_verification_icon package_repo_verification_label
render_package_card-signature lower path p q e =
    let s = package_card_signature_inj p q e in
    λ i. without_image (
      render_package_card lower path (record {
        id = s.same_id i;
        name = s.same_name i;
        repo = s.same_repo i;
        version = s.same_version i;
        description = s.same_description i;
        author = s.same_author i;
        icon_url = s.same_icon_url i;
        icon = [];
        image_url = s.same_image_url i;
        images = [];
        image = [];
        repo_icon_url = s.same_repo_icon_url i;
        repo_trust = s.same_repo_trust i;
        repo_default = s.same_repo_default i;
        featured = s.same_featured i;
        featured_image = s.same_featured_image i;
        installed = s.same_installed i;
        tags = [];
      }))

module _ (lower : Text → Text) (path : Text) where
  chosen-IsFaithful :
      (i : ℕ) (pkg : Package) (k : Text) (old : List Card) (fresh : ℕ)
      → All (IsFaithful lower path) old
      → IsFaithful lower path (chosen lower path i pkg (find_key k old) fresh).0
  chosen-IsFaithful i pkg k old fresh h = by_case (find_key k old) refl
    where
      by_case :
          (o : Option Card)
          → find_key k old ≡ o
          → IsFaithful lower path (chosen lower path i pkg o fresh).0
      by_case none e = unfold chosen in new_card-IsFaithful lower path i pkg fresh
      by_case (some card) e =
          unfold chosen in
          (elim (Bool-cases (signed_as (package_card_signature pkg) card)) [
            | inl same ↦ rw same (All-find_key (IsFaithful lower path) k old e h)
            | inr other ↦ rw other (new_card-IsFaithful lower path i pkg fresh)
          ])

  expected-IsFaithful :
      (i : ℕ) (packages : List Package) (old : List Card) (fresh : ℕ)
      → All (IsFaithful lower path) old
      → All (IsFaithful lower path) (expected lower path i packages old fresh).0
  unfolding expected
  expected-IsFaithful i [] old fresh h = tt
  expected-IsFaithful i (pkg ∷ packages) old fresh h = (
    chosen-IsFaithful i pkg (package_key i pkg) old fresh h,
    expected-IsFaithful (suc i) packages _ _ (All-drop_key (IsFaithful lower path) _ old h),
  )

  views_of_signatures :
      (cards : List Card) (packages : List Package)
      → All (IsFaithful lower path) cards
      → map (λ c. c.signature) cards ≡ map package_card_signature packages
      → map (λ c. without_image c.view) cards
        ≡ map (λ p. without_image (render_package_card lower path p)) packages
  views_of_signatures [] [] h e = refl
  views_of_signatures [] (p ∷ packages) h e = cc
  views_of_signatures (c ∷ cards) [] h e = cc
  views_of_signatures (c ∷ cards) (p ∷ packages) (f, h) e =
      ap₂ ◌∷◌
        (rw f.drawn (render_package_card-signature lower path c.shown p (sym f.signed ∙ (cc))))
        (views_of_signatures cards packages h (cc))

  -- Where the cards found in the container are tidy (each has a key that is not empty, no two share a
  -- key or an identity, every identity is below `fresh`), and each was made by this code (it has the
  -- signature and the view of the package that it was made for), each card of the result displays,
  -- its image aside, what rendering the package in its place displays: no name, version, badge or
  -- button is out of date.
  pub reconcile_package_cards-view :
      (packages : List Package) (children : List Card) (fresh : ℕ)
      → IsTidy children fresh
      → All (IsFaithful lower path) children
      → map
          (λ c. without_image c.view)
          (reconcile_package_cards lower path packages children fresh).0
        ≡ map (λ p. without_image (render_package_card lower path p)) packages
  reconcile_package_cards-view packages children fresh t h =
      views_of_signatures _ packages
        (rw (reconcile_package_cards-expected lower path packages children fresh t)
          (expected-IsFaithful 0 packages children fresh h))
        (reconcile_package_cards-keys lower path packages children fresh t).1

  pub reconcile_package_cards-IsFaithful :
      (packages : List Package) (children : List Card) (fresh : ℕ)
      → IsTidy children fresh
      → All (IsFaithful lower path) children
      → All (IsFaithful lower path) (reconcile_package_cards lower path packages children fresh).0
  reconcile_package_cards-IsFaithful packages children fresh t h =
      rw (reconcile_package_cards-expected lower path packages children fresh t)
        (expected-IsFaithful 0 packages children fresh h)
