-- ===== src/Search/Cards.antt =====
-- The list of cards of the page "Discover" (frontend/kindle/pages/search/script.js).
use zen_pm.Prelude.{◌≡◌, refl, List, [], map, Bool-cases, inl, inr, Text, truthy, All}
use zen_pm.Package.{Package}
use zen_pm.Cards.Content.{without_image}
use zen_pm.Cards.Render.{render_package_card}
use zen_pm.Session.{Event}
use zen_pm.Listing.Ids.{HaveDistinctIds, select-HaveDistinctIds, IsDistinct}
use zen_pm.Listing.Display.{run-Shows}
use zen_pm.Session.Keeps.{Answers}
use zen_pm.Search.{query_of, matches, visible, wording, max_retries, page, open_page}

module _ (lower : Text → Text) (path : Text) (encode : Text → Text) where
  visible-HaveDistinctIds :
      (value : Text) (packages : List Package)
      → HaveDistinctIds packages
      → HaveDistinctIds (visible lower value packages)
  unfolding visible
  visible-HaveDistinctIds value packages d = elim (Bool-cases (truthy (query_of lower value))) [
    | inl some_query ↦
        rw some_query (select-HaveDistinctIds (matches lower (query_of lower value)) packages d)
    | inr no_query ↦ rw no_query d
  ]

  visible-nil : (value : Text) → visible lower value [] ≡ []
  unfolding visible
  visible-nil value = elim (Bool-cases (truthy (query_of lower value))) [
    | inl some_query ↦ rw some_query refl
    | inr no_query ↦ rw no_query refl
  ]

  -- As long as the daemon lists packages with distinct ids, after any events the page shows exactly
  -- the packages last loaded whose name contains what stands in the search box, in the daemon's
  -- order, each displayed, its image aside, as rendering it displays it.
  pub open_page-visible :
      (events : List Event)
      → All (Answers IsDistinct) events
      → let s = open_page lower path encode events in
        map (λ c. without_image c.view) s.own.cards
        ≡ map
            (λ p. without_image (render_package_card lower path p))
            (visible lower s.own.query s.own.packages)
  unfolding open_page page wording
  open_page-visible events d =
      (run-Shows lower path (wording lower) visible-HaveDistinctIds encode max_retries events
        (visible-nil []) d).1.shown
