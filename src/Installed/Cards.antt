-- ===== src/Installed/Cards.antt =====
-- The list of cards of the page "Installed" (frontend/kindle/pages/installed/installed.js).
use zen_pm.Prelude.{
  none, ◌≡◌, refl, ap, ◌∙◌, List, [], ◌∷◌, map, true, Bool-cases, inl, inr, Text, truthy, All, lit,
}
use zen_pm.Package.{Package}
use zen_pm.Cards.{Card}
use zen_pm.Cards.Content.{without_image}
use zen_pm.Cards.Render.{render_package_card}
use zen_pm.Session.{Event}
use zen_pm.Session.Events.{run, init}
use zen_pm.Listing.Ids.{
  HaveDistinctIds, select-HaveDistinctIds, All-select, All-select_self, IsDistinct,
}
use zen_pm.Listing.Display.{run-Shows}
use zen_pm.Session.Keeps.{Answers}
use zen_pm.Listing.{empty_list}
use zen_pm.Search.{query_of, matches}
use zen_pm.Installed.{only_installed, visible, wording, max_retries, page, open_page}

module _ (lower : Text → Text) (path : Text) (encode : Text → Text) where
  visible-HaveDistinctIds :
      (value : Text) (packages : List Package)
      → HaveDistinctIds packages
      → HaveDistinctIds (visible lower value packages)
  unfolding visible only_installed
  visible-HaveDistinctIds value packages d =
      let installed = select-HaveDistinctIds (λ p. p.installed) packages d in
      elim (Bool-cases (truthy (query_of lower value))) [
        | inl some_query ↦ rw some_query (
            select-HaveDistinctIds (matches lower (query_of lower value)) (only_installed packages)
              installed)
        | inr no_query ↦ rw no_query installed
      ]

  visible-nil : (value : Text) → visible lower value [] ≡ []
  unfolding visible only_installed
  visible-nil value = elim (Bool-cases (truthy (query_of lower value))) [
    | inl some_query ↦ rw some_query refl
    | inr no_query ↦ rw no_query refl
  ]

  -- All that the page lists is installed.
  visible-installed :
      (value : Text) (packages : List Package)
      → All (λ p. p.installed ≡ true) (visible lower value packages)
  unfolding visible only_installed
  visible-installed value packages = elim (Bool-cases (truthy (query_of lower value))) [
    | inl some_query ↦ rw some_query (
        All-select (λ p. p.installed ≡ true) (matches lower (query_of lower value)) _
          (All-select_self (λ p. p.installed) packages))
    | inr no_query ↦ rw no_query (All-select_self (λ p. p.installed) packages)
  ]

  label_of :
      (p : Package)
      → p.installed ≡ true
      → (render_package_card lower path p).action_label ≡ lit "Modify"
  unfolding render_package_card
  label_of p q = rw q refl

  labels :
      (cards : List Card) (packages : List Package)
      → All (λ p. p.installed ≡ true) packages
      → map (λ c. without_image c.view) cards
        ≡ map (λ p. without_image (render_package_card lower path p)) packages
      → All (λ c. c.view.action_label ≡ lit "Modify") cards
  labels [] packages h e = tt
  labels (c ∷ cards) [] h e = cc
  labels (c ∷ cards) (p ∷ packages) (q, h) e =
      let same : without_image c.view ≡ without_image (render_package_card lower path p) = cc in
      (ap (λ v. v.action_label) same ∙ label_of p q, labels cards packages h (cc))

  -- As long as the daemon lists packages with distinct ids, after any events every card of the page
  -- offers "Modify", and the page shows exactly the installed packages of those last loaded whose
  -- name contains what stands in the search box, in the daemon's order.
  pub open_page-installed :
      (events : List Event)
      → All (Answers IsDistinct) events
      → let s = open_page lower path encode events in
        All (λ c. c.view.action_label ≡ lit "Modify") s.own.cards
        × (map (λ c. without_image c.view) s.own.cards
            ≡ map
                (λ p. without_image (render_package_card lower path p))
                (visible lower s.own.query s.own.packages))
  unfolding open_page page wording
  open_page-installed events d =
      let shown =
        (run-Shows lower path (wording lower) visible-HaveDistinctIds encode max_retries events
          (visible-nil []) d).1.shown in
      let s = run encode (page lower path) (init none empty_list) events in
      (labels _ _ (visible-installed s.own.query s.own.packages) shown, shown)
