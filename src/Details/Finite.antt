-- ===== src/Details/Finite.antt =====
-- How many requests a load of the page of a package is (loadPackage of
-- frontend/kindle/pages/package-details/script.js).
use zen_pm.Prelude.{
  ℕ, ◌<◌, ◌≤◌, Option, none, some, Bool, true, false, not, Text, ◌===◌, if◌then◌else◌, truthy,
  arith,
}
use zen_pm.Package.{Package}
use zen_pm.Repos.{kindleforge_name}
use zen_pm.Details.{find_repo_url}
use zen_pm.Details.Page.{DetailsView, arrive, begin_enrich, merge_manifest, load_package, page}
use zen_pm.Session.{Stage, get_packages, get_repos, get_manifest, Answer, loaded, listed, failed}
use zen_pm.Session.Page.{Loaded, IsFinite}
use zen_pm.Session.Keeps.{Arrives}
use zen_pm.Session.Loading.{falls_of_Arrives}

abbrev pub weight : Stage → ℕ
weight get_packages = 2
weight (get_repos _) = 1
weight (get_manifest _ _) = 0

module _ (lower : Text → Text) (path : Text) (token : Text) (package_id : Text) where
  -- What follows a request is worth less than `bound`.
  abbrev Below : ℕ → Stage → Type 0
  Below bound st = weight st < bound

  abbrev Anything : DetailsView → Type 0
  Anything _ = Unit

  arrive-Below :
      (bound : ℕ) (o : Option Package) (v : DetailsView)
      → Arrives Anything (Below bound) (some (arrive lower path token o v))
  unfolding arrive
  arrive-Below bound o v = (tt, tt)

  either-Below :
      (bound : ℕ) (b : Bool) (x y : Loaded DetailsView)
      → Arrives Anything (Below bound) (some x)
      → Arrives Anything (Below bound) (some y)
      → Arrives Anything (Below bound) (some (if b then x else y))
  either-Below bound true x y h k = h
  either-Below bound false x y h k = k

  begin_enrich-Below :
      (o : Option Package) (hint : Text) (v : DetailsView)
      → Arrives Anything (Below 2) (some (begin_enrich lower path token o hint v))
  unfolding begin_enrich
  begin_enrich-Below none hint v = arrive-Below 2 none v
  begin_enrich-Below (some p) hint v =
      either-Below 2 (not (truthy p.repo)) _ _ (arrive-Below 2 (some p) v) (
        either-Below 2 (p.repo === kindleforge_name) _ _ (arrive-Below 2 (some p) v)
          (tt, omega arith))

  load_package-Below :
      (st : Stage) (a : Answer) (hint : Text) (v : DetailsView)
      → Arrives Anything (Below (weight st)) (load_package lower path token package_id st a hint v)
  unfolding load_package
  load_package-Below get_packages (loaded packages) hint v = begin_enrich-Below _ hint _
  load_package-Below get_packages (failed err) hint v = (tt, tt)
  load_package-Below (get_repos (some p)) (listed repos) hint v =
      either-Below 1 (not (truthy (find_repo_url p.repo repos))) _ _ (arrive-Below 1 (some p) v)
        (tt, omega arith)
  load_package-Below (get_repos (some p)) (failed err) hint v = arrive-Below 1 (some p) v
  load_package-Below (get_manifest p url) (loaded packages) hint v =
      arrive-Below 0 (some (merge_manifest p url packages)) v
  load_package-Below (get_manifest p url) (failed err) hint v = arrive-Below 0 (some p) v
  load_package-Below _ a hint v = tt

  weight_low : (st : Stage) → weight st ≤ 3
  weight_low get_packages = omega arith
  weight_low (get_repos _) = omega arith
  weight_low (get_manifest _ _) = omega arith

  -- A load of this page is three requests at most.
  pub page-IsFinite : IsFinite (page lower path token package_id)
  unfolding page
  page-IsFinite = record {
    weight = weight;
    low = weight_low;
    falls = falls_of_Arrives _ weight load_package-Below;
  }
