-- ===== src/Tests/Showing.antt =====
-- Runs of the pages of one source and of one package.
use zen_pm.Prelude.{
  ◌===◌, ◌≡◌, ◌≢◌, ◌⊎◌, refl, List, [], ◌∷◌, map, none, some, true, false, not, Text, lit, All,
}
use zen_pm.Repos.{Repo}
use zen_pm.Cards.Content.{without_image}
use zen_pm.Cards.Render.{render_package_card}
use zen_pm.Listing.{Listing, is_empty}
use zen_pm.Listing.Ids.{IsDistinct}
use zen_pm.Session.{
  Stage, get_packages, get_repos, get_manifest, Event, settle, healthy, listed, loaded, failed,
  Answer,
}
use zen_pm.Session.Keeps.{Answers}
use zen_pm.Session.Loading.{load_from}
use zen_pm.Loads.{Fits, page_loads_end}
use zen_pm.Search
use zen_pm.Installed
use zen_pm.SourceDetails
use zen_pm.SourceDetails.Packages.{open_page-of_source}
use zen_pm.Details.{enrich_package}
use zen_pm.Details.Page.{DetailsView, page, render_details, open_page, empty_details}
use zen_pm.Details.Loads.{answers, load_from-enrich_package}
use zen_pm.Tests.Samples.{lower, encode, clock, reader}

abbrev shelf : Repo
shelf = record {
  name = lit "Shelf";
  url = lit "https://shelf.example";
  icon_url = [];
  trust = lit "signed";
  is_default = false;
}

abbrev source_path : Text
source_path = lit "/pages/source-details/index.html"

abbrev details_path : Text
details_path = lit "/pages/package-details/index.html"

-- The page connects, and loads the sources and the packages.
abbrev open_source : List Event
open_source =
    settle 0 (healthy true)
    ∷ settle 0 (listed (shelf ∷ []))
    ∷ settle 0 (loaded (clock ∷ reader ∷ []))
    ∷ []

open_source-Answers : All (Answers IsDistinct) open_source
unfolding lit
open_source-Answers = (tt, (tt, (((λ e. cc), ((λ e. cc), tt), ((λ e. cc), tt, tt)), tt)))

source_packages :
    (SourceDetails.open_page lower source_path (lit "Shelf") encode open_source).own.visible
    ≡ clock ∷ reader ∷ []
unfolding lit ◌===◌ SourceDetails.open_page zen_pm.Session.Events.run zen_pm.Session.Events.init
    zen_pm.Session.Loop.resume
source_packages = refl

open_page-of_source_example :
    let v = (SourceDetails.open_page lower source_path (lit "Shelf") encode open_source).own in
    ((v.visible ≡ []) ⊎ (v.visible ≡ SourceDetails.packages_of (lit "Shelf") v.packages))
    × All (λ p. (p.repo === lit "Shelf") ≡ true) v.visible
    × (map (λ c. without_image c.view) v.cards
        ≡ map (λ p. without_image (render_package_card lower source_path p)) v.visible)
    × (v.hint_hidden ≡ not (is_empty v.visible))
open_page-of_source_example =
    open_page-of_source lower source_path (lit "Shelf") encode open_source open_source-Answers

-- The page connects, and loads the packages, the sources and the manifest.
abbrev open_clock : List Event
open_clock =
    settle 0 (healthy true)
    ∷ settle 0 (loaded (clock ∷ reader ∷ []))
    ∷ settle 0 (listed (shelf ∷ []))
    ∷ settle 0 (loaded (record clock { description = lit "Tells the time" } ∷ []))
    ∷ []

-- The repositories are listed, and there is no manifest.
abbrev replies : Stage → Answer
replies = answers (lit "7") (clock ∷ reader ∷ []) (some (shelf ∷ [])) (λ address. none)

load_from-enrich_package_example :
    load_from
      (page lower details_path (lit "7") (lit "clock"))
      replies
      3
      get_packages
      []
      empty_details
    ≡ some (
        render_details lower details_path
          (lit "7")
          (some (enrich_package (lit "7") clock (some (shelf ∷ [])) (λ address. none)))
          (record empty_details { packages = clock ∷ reader ∷ [] }))
unfolding lit ◌===◌ zen_pm.Details.find_package
load_from-enrich_package_example =
    load_from-enrich_package lower details_path (lit "7") (lit "clock") (clock ∷ reader ∷ [])
      (some (shelf ∷ [])) (λ address. none) [] empty_details

replies_fit : (st : Stage) → Fits st (replies st)
replies_fit get_packages = tt
replies_fit (get_repos p) = tt
replies_fit (get_manifest p url) = tt

page_loads_end_example :
    let source_page = SourceDetails.page lower details_path (lit "Shelf") in
    let details_page = page lower details_path (lit "7") (lit "clock") in
    ((l : Listing) → load_from (Search.page lower details_path) replies 1 get_packages [] l ≢ none)
    × ((l : Listing)
        → load_from (Installed.page lower details_path) replies 1 get_packages [] l ≢ none)
    × ((v : SourceDetails.SourceView)
        → load_from source_page replies 2 source_page.first_stage [] v ≢ none)
    × ((v : DetailsView) → load_from details_page replies 3 details_page.first_stage [] v ≢ none)
page_loads_end_example =
    page_loads_end replies lower details_path (lit "Shelf") (lit "7") (lit "clock") [] replies_fit
