-- ===== src/Tests/Listing.antt =====
-- Runs of the code that keeps the list of cards, and of what a card displays.
use zen_pm.Prelude.{
  ◌≡◌, refl, sym, arith, ◌++◌, List, [], ◌∷◌, map, lit, All, ◌===◌, inl, inr, ◌or◌,
}
use zen_pm.Package.{Package}
use zen_pm.Package.Signature.{
  package_card_signature, package_card_signature_inj, package_card_signature-icon, SameCard,
}
use zen_pm.Repos.{
  package_repo_verified, bundled_repo_icon, base_path, repo_display_name, package_version_repo_text,
  package_version_prefix_text,
}
use zen_pm.Repos.Laws.{bundled_repo_icon-favicon, package_version_repo_text_split, IsBundled}
use zen_pm.Cards.{Card, reconcile_package_cards, new_card}
use zen_pm.Cards.Render.{render_package_card}
use zen_pm.Cards.Reconcile.{IsTidy, expected, reconcile_package_cards-expected}
use zen_pm.Cards.Content.{
  IsFaithful, without_image, package_keys, reconcile_package_cards-keys,
  reconcile_package_cards-view, render_package_card-signature,
}
use zen_pm.Cards.Again.{HaveDistinctKeys, reconcile_package_cards_idem}
use zen_pm.Cards.Stale.{reconcile_package_cards-stale, reconcile_package_cards-stale_icon}
use zen_pm.Tests.Samples.{lower, search_path, clock, reader, installed_clock}

-- The container shows the first package; then its state changes, and the second comes in front.
abbrev old_cards : List Card
old_cards = new_card lower search_path 0 clock 0 ∷ []

abbrev packages : List Package
packages = reader ∷ installed_clock ∷ []

old_cards-IsTidy : IsTidy old_cards 1
unfolding new_card lit
old_cards-IsTidy = record {
  nodes = (tt, tt);
  keys = (tt, tt);
  keyed = ((λ e. cc), tt);
  below = (omega arith, tt);
}

old_cards-IsFaithful : All (IsFaithful lower search_path) old_cards
unfolding new_card
old_cards-IsFaithful = (record { signed = refl; drawn = refl }, tt)

packages-HaveDistinctKeys : HaveDistinctKeys packages
unfolding zen_pm.Cards.package_key lit
packages-HaveDistinctKeys = (((λ e. cc), tt), (tt, tt))

reconcile_package_cards_nodes :
    map (λ c. c.node) (reconcile_package_cards lower search_path packages old_cards 1).0
    ≡ 1 ∷ 2 ∷ []
unfolding reconcile_package_cards lit ◌===◌ package_card_signature zen_pm.Decimal.to_text
reconcile_package_cards_nodes = refl

reconcile_package_cards-expected_example :
    reconcile_package_cards lower search_path packages old_cards 1
    ≡ expected lower search_path 0 packages old_cards 1
reconcile_package_cards-expected_example =
    reconcile_package_cards-expected lower search_path packages old_cards 1 old_cards-IsTidy

reconcile_package_cards-keys_example :
    let cards = (reconcile_package_cards lower search_path packages old_cards 1).0 in
    (map (λ c. c.key) cards ≡ package_keys 0 packages)
    × (map (λ c. c.signature) cards ≡ map package_card_signature packages)
reconcile_package_cards-keys_example =
    reconcile_package_cards-keys lower search_path packages old_cards 1 old_cards-IsTidy

reconcile_package_cards-view_example :
    map
      (λ c. without_image c.view)
      (reconcile_package_cards lower search_path packages old_cards 1).0
    ≡ map (λ p. without_image (render_package_card lower search_path p)) packages
reconcile_package_cards-view_example =
    reconcile_package_cards-view lower search_path packages old_cards 1 old_cards-IsTidy
      old_cards-IsFaithful

reconcile_package_cards_idem_example :
    let (cards, fresh) = reconcile_package_cards lower search_path packages old_cards 1 in
    reconcile_package_cards lower search_path packages cards fresh ≡ (cards, fresh)
reconcile_package_cards_idem_example =
    reconcile_package_cards_idem lower search_path packages old_cards 1 packages-HaveDistinctKeys
      old_cards-IsTidy

reconcile_package_cards-stale_example :
    let (cards, fresh) =
      reconcile_package_cards lower search_path (clock ∷ installed_clock ∷ []) [] 0 in
    (reconcile_package_cards lower search_path [] cards fresh).0
    ≡ new_card lower search_path 0 clock 0 ∷ []
unfolding lit
reconcile_package_cards-stale_example =
    reconcile_package_cards-stale lower search_path clock installed_clock refl refl

-- A package like the first but for its image.
abbrev clock_with_image : Package
clock_with_image = record clock { image = lit "c.png" }

reconcile_package_cards-stale_icon_example :
    let (cards, fresh) = reconcile_package_cards lower search_path (clock ∷ []) [] 0 in
    reconcile_package_cards lower search_path (clock_with_image ∷ []) cards fresh ≡ (cards, fresh)
reconcile_package_cards-stale_icon_example =
    reconcile_package_cards-stale_icon lower search_path clock [] (lit "c.png")

package_card_signature_inj_example : SameCard clock clock_with_image
package_card_signature_inj_example =
    package_card_signature_inj clock clock_with_image
      (sym (package_card_signature-icon clock [] (lit "c.png")))

render_package_card-signature_example :
    without_image (render_package_card lower search_path clock)
    ≡ without_image (render_package_card lower search_path clock_with_image)
render_package_card-signature_example =
    render_package_card-signature lower search_path clock clock_with_image
      (sym (package_card_signature-icon clock [] (lit "c.png")))

shelf : ¬ IsBundled (lit "Shelf")
unfolding lit zen_pm.Repos.zenlabs_name zen_pm.Repos.zenlabs_display zen_pm.Repos.kindleforge_name
shelf (inl e) = cc
shelf (inr (inl e)) = cc
shelf (inr (inr e)) = cc

bundled_repo_icon-favicon_example :
    bundled_repo_icon lower search_path clock
    ≡ (clock.repo_icon_url or (base_path search_path ++ lit "/assets/packages.svg"))
bundled_repo_icon-favicon_example = bundled_repo_icon-favicon lower search_path clock shelf

package_version_repo_text_split_example :
    package_version_repo_text clock
    ≡ package_version_prefix_text clock ++ repo_display_name (clock.repo or lit "?")
package_version_repo_text_split_example = package_version_repo_text_split clock
