-- ===== src/Loads.antt =====
-- That the loads of the pages end: loadPackages of frontend/kindle/pages/search/script.js and
-- pages/installed/installed.js, loadSourceAndPackages of pages/source-details/script.js and
-- loadPackage of pages/package-details/script.js.
use zen_pm.Prelude.{ℕ, ◌≢◌, Option, none, some, not, Text, ◌===◌, truthy}
use zen_pm.Package.{Package}
use zen_pm.Repos.{kindleforge_name}
use zen_pm.Session.{Stage, get_packages, get_repos, get_manifest, Answer, loaded, listed, failed}
use zen_pm.Session.Page.{Loaded, Page}
use zen_pm.Session.Loading.{load_from, Ends, load_from-Ends, either-Ends}
use zen_pm.Listing.{Listing, Wording, list_page, load_packages}
use zen_pm.Search
use zen_pm.Installed
use zen_pm.SourceDetails
use zen_pm.SourceDetails.{SourceView, load_source}
use zen_pm.Details.{find_package, find_repo_url}
use zen_pm.Details.Page.{DetailsView, page, arrive, begin_enrich, merge_manifest, load_package}

-- How a request can be answered: with what it asks for, or by a failure.
abbrev pub Fits : Stage → Answer → Type 0
Fits get_packages (loaded packages) = Unit
Fits (get_repos _) (listed repos) = Unit
Fits (get_manifest _ _) (loaded packages) = Unit
Fits _ (failed err) = Unit
Fits _ _ = ⊥

module _ (ask : Stage → Answer) (fits : (st : Stage) → Fits st (ask st)) (lower : Text → Text)
    (path : Text) where
  list_page-Ends :
      (wording : Wording) (max_retries : ℕ) (hint : Text) (l : Listing)
      → load_from (list_page lower path wording max_retries) ask 1 get_packages hint l ≢ none
  unfolding list_page load_packages
  list_page-Ends wording max_retries hint l =
      load_from-Ends (list_page lower path wording max_retries) ask 0 get_packages hint l
        (by_answer (ask get_packages) (fits get_packages))
    where
      by_answer :
          (a : Answer)
          → Fits get_packages a
          → Ends
              (list_page lower path wording max_retries)
              ask
              0
              (load_packages lower path wording get_packages a hint l)
      by_answer (loaded packages) f = tt
      by_answer (failed err) f = tt
      by_answer _ f = absurd f

  module _ (source_name : Text) where
    abbrev source_page : Page SourceView
    source_page = SourceDetails.page lower path source_name

    source_packages-Ends :
        (hint : Text) (v : SourceView) → load_from source_page ask 1 get_packages hint v ≢ none
    unfolding SourceDetails.page load_source
    source_packages-Ends hint v =
        load_from-Ends source_page ask 0 get_packages hint v
          (by_answer (ask get_packages) (fits get_packages))
      where
        by_answer :
            (a : Answer)
            → Fits get_packages a
            → Ends source_page ask 0 (load_source lower path source_name get_packages a hint v)
        by_answer (loaded packages) f = tt
        by_answer (failed err) f = tt
        by_answer _ f = absurd f

    source_page-Ends :
        (hint : Text) (v : SourceView) → load_from source_page ask 2 (get_repos none) hint v ≢ none
    unfolding SourceDetails.page load_source
    source_page-Ends hint v =
        load_from-Ends source_page ask 1 (get_repos none) hint v
          (by_answer (ask (get_repos none)) (fits (get_repos none)))
      where
        by_answer :
            (a : Answer)
            → Fits (get_repos none) a
            → Ends source_page ask 1 (load_source lower path source_name (get_repos none) a hint v)
        by_answer (listed repos) f = source_packages-Ends hint _
        by_answer (failed err) f = tt
        by_answer _ f = absurd f

  module _ (token : Text) (package_id : Text) where
    abbrev details_page : Page DetailsView
    details_page = page lower path token package_id

    abbrev step_of : Stage → Answer → Text → DetailsView → Option (Loaded DetailsView)
    step_of = load_package lower path token package_id

    arrive-Ends :
        (n : ℕ) (o : Option Package) (v : DetailsView)
        → Ends details_page ask n (some (arrive lower path token o v))
    unfolding arrive
    arrive-Ends n o v = tt

    manifest-Ends :
        (p : Package) (url : Text) (hint : Text) (v : DetailsView)
        → load_from details_page ask 1 (get_manifest p url) hint v ≢ none
    unfolding page load_package
    manifest-Ends p url hint v =
        load_from-Ends details_page ask 0 (get_manifest p url) hint v
          (by_answer (ask (get_manifest p url)) (fits (get_manifest p url)))
      where
        by_answer :
            (a : Answer)
            → Fits (get_manifest p url) a
            → Ends details_page ask 0 (step_of (get_manifest p url) a hint v)
        by_answer (loaded packages) f = arrive-Ends 0 (some (merge_manifest p url packages)) v
        by_answer (failed err) f = arrive-Ends 0 (some p) v
        by_answer _ f = absurd f

    repos-Ends :
        (p : Package) (hint : Text) (v : DetailsView)
        → load_from details_page ask 2 (get_repos (some p)) hint v ≢ none
    unfolding page load_package
    repos-Ends p hint v =
        load_from-Ends details_page ask 1 (get_repos (some p)) hint v
          (by_answer (ask (get_repos (some p))) (fits (get_repos (some p))))
      where
        by_answer :
            (a : Answer)
            → Fits (get_repos (some p)) a
            → Ends details_page ask 1 (step_of (get_repos (some p)) a hint v)
        by_answer (listed repos) f =
            either-Ends details_page ask 1 (not (truthy (find_repo_url p.repo repos))) _ _
              (arrive-Ends 1 (some p) v) (manifest-Ends p (find_repo_url p.repo repos) hint v)
        by_answer (failed err) f = arrive-Ends 1 (some p) v
        by_answer _ f = absurd f

    begin_enrich-Ends :
        (o : Option Package) (hint : Text) (v : DetailsView)
        → Ends details_page ask 2 (some (begin_enrich lower path token o hint v))
    unfolding begin_enrich
    begin_enrich-Ends none hint v = arrive-Ends 2 none v
    begin_enrich-Ends (some p) hint v =
        either-Ends details_page ask 2 (not (truthy p.repo)) _ _ (arrive-Ends 2 (some p) v) (
          either-Ends details_page ask 2 (p.repo === kindleforge_name) _ _
            (arrive-Ends 2 (some p) v) (repos-Ends p hint v))

    details_page-Ends :
        (hint : Text) (v : DetailsView) → load_from details_page ask 3 get_packages hint v ≢ none
    unfolding page load_package
    details_page-Ends hint v =
        load_from-Ends details_page ask 2 get_packages hint v
          (by_answer (ask get_packages) (fits get_packages))
      where
        by_answer :
            (a : Answer)
            → Fits get_packages a
            → Ends details_page ask 2 (step_of get_packages a hint v)
        by_answer (loaded packages) f = begin_enrich-Ends (find_package package_id packages) hint _
        by_answer (failed err) f = tt
        by_answer _ f = absurd f

-- However the requests are answered, each with what it asks for or by a failure, a load that nothing
-- interrupts comes to its end: on "Discover" and "Installed" with one request, on the page of a
-- source with two at most, and on the page of a package with three at most.
pub page_loads_end :
    (ask : Stage → Answer) (lower : Text → Text) (path source_name token package_id hint : Text)
    → ((st : Stage) → Fits st (ask st))
    → let source_page = SourceDetails.page lower path source_name in
      let details_page = page lower path token package_id in
      ((l : Listing) → load_from (Search.page lower path) ask 1 get_packages hint l ≢ none)
      × ((l : Listing) → load_from (Installed.page lower path) ask 1 get_packages hint l ≢ none)
      × ((v : SourceView) → load_from source_page ask 2 source_page.first_stage hint v ≢ none)
      × ((v : DetailsView) → load_from details_page ask 3 details_page.first_stage hint v ≢ none)
unfolding Search.page Installed.page SourceDetails.page page
page_loads_end ask lower path source_name token package_id hint fits = (
  list_page-Ends ask fits lower path (Search.wording lower) Search.max_retries hint,
  list_page-Ends ask fits lower path (Installed.wording lower) Installed.max_retries hint,
  source_page-Ends ask fits lower path source_name hint,
  details_page-Ends ask fits lower path token package_id hint,
)
