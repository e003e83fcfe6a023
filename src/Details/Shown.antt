-- ===== src/Details/Shown.antt =====
-- Which package the page of a package shows, and how its load completes it
-- (frontend/kindle/pages/package-details/script.js).
use zen_pm.Prelude.{
  ◌≡◌, refl, Option, none, some, List, [], ◌∷◌, Bool, true, false, ◌||◌, not, Text, ◌===◌, ===_iff,
  if◌then◌else◌, truthy, All, first,
}
use zen_pm.Package.{Package}
use zen_pm.Repos.{kindleforge_name}
use zen_pm.Details.{find_package, find_repo_url, merge_repo_metadata}
use zen_pm.Details.Page.{
  Body, DetailsView, render_body, render_details, arrive, begin_enrich, merge_manifest,
  load_package, page,
}
use zen_pm.Session.{Stage, get_packages, get_repos, get_manifest, Answer, loaded, listed, failed}
use zen_pm.Session.Page.{Loaded}
use zen_pm.Session.Keeps.{IsKept, Arrives}

-- A package that is named by the key of another: the page would show it in the other's stead.
abbrev pub KeyIsId : Text → Package → Type 0
KeyIsId package_id p = p.name ≡ package_id → p.id ≡ package_id

-- No package that the daemon lists is named by the key, unless it is its id too.
abbrev pub ListsByIds : Text → Answer → Type 0
ListsByIds package_id (loaded packages) = All (KeyIsId package_id) packages
ListsByIds package_id _ = Unit

module _ (lower : Text → Text) (path : Text) (token : Text) (package_id : Text) where
  abbrev pub IsAsked : Package → Type 0
  IsAsked p = p.id ≡ package_id

  abbrev pub MayBeAsked : Option Package → Type 0
  MayBeAsked none = Unit
  MayBeAsked (some p) = IsAsked p

  -- The body is that of a package with the id that was asked for.
  abbrev pub ShowsAsked : Option Body → Type 0
  ShowsAsked none = Unit
  ShowsAsked (some b) = IsAsked b.shown × (b ≡ render_body lower path token b.shown)

  abbrev pub ShowsPackage : DetailsView → Type 0
  ShowsPackage v = MayBeAsked v.pkg × ShowsAsked v.body

  -- The requests that complete a package are for the one that was asked for.
  abbrev pub ForAsked : Stage → Type 0
  ForAsked get_packages = Unit
  ForAsked (get_repos none) = ⊥
  ForAsked (get_repos (some p)) = IsAsked p
  ForAsked (get_manifest p url) = IsAsked p

  abbrev Arrived : Loaded DetailsView → Type 0
  Arrived l = Arrives ShowsPackage ForAsked (some l)

  either :
      (b : Bool) (x y : Loaded DetailsView) → Arrived x → Arrived y → Arrived (if b then x else y)
  either true x y h k = h
  either false x y h k = k

  arrive-Arrived :
      (o : Option Package) (v : DetailsView) → MayBeAsked o → Arrived (arrive lower path token o v)
  unfolding arrive render_details
  arrive-Arrived none v h = ((tt, tt), tt)
  arrive-Arrived (some p) v h = ((h, (h, refl)), tt)

  begin_enrich-Arrived :
      (o : Option Package) (hint : Text) (v : DetailsView)
      → MayBeAsked o
      → ShowsPackage v
      → Arrived (begin_enrich lower path token o hint v)
  unfolding begin_enrich
  begin_enrich-Arrived none hint v h s = arrive-Arrived none v h
  begin_enrich-Arrived (some p) hint v h s =
      either (not (truthy p.repo)) _ _ (arrive-Arrived (some p) v h)
        (either (p.repo === kindleforge_name) _ _ (arrive-Arrived (some p) v h) (s, h))

  find_package-MayBeAsked :
      (packages : List Package)
      → All (KeyIsId package_id) packages
      → MayBeAsked (find_package package_id packages)
  unfolding find_package
  find_package-MayBeAsked [] h = tt
  find_package-MayBeAsked (p ∷ packages) (k, h) =
      found (p.id === package_id) (p.name === package_id) refl refl
        (find_package-MayBeAsked packages h)
    where
      found :
          (by_id by_name : Bool)
          → (p.id === package_id) ≡ by_id
          → (p.name === package_id) ≡ by_name
          → MayBeAsked (find_package package_id packages)
          → MayBeAsked (if by_id || by_name then some p else find_package package_id packages)
      found true by_name e f m = (===_iff p.id package_id).0 e
      found false true e f m = k ((===_iff p.name package_id).0 f)
      found false false e f m = m

  merge_manifest-id :
      (p : Package) (url : Text) (packages : List Package)
      → (merge_manifest p url packages).id ≡ p.id
  unfolding merge_manifest merge_repo_metadata
  merge_manifest-id p url packages = merged (first (λ q. q.id === p.id) packages)
    where
      merged :
          (o : Option Package)
          → (elim o as (λ _. Package) [ none ↦ p | some q ↦ merge_repo_metadata p q url ]).id ≡ p.id
      merged none = refl
      merged (some q) = refl

  load_package-Arrives :
      (st : Stage) (a : Answer) (hint : Text) (v : DetailsView)
      → ForAsked st
      → ListsByIds package_id a
      → ShowsPackage v
      → Arrives ShowsPackage ForAsked (load_package lower path token package_id st a hint v)
  unfolding load_package
  load_package-Arrives get_packages (loaded packages) hint v q d s =
      let found = find_package-MayBeAsked packages d in
      begin_enrich-Arrived (find_package package_id packages) hint
        (record v { packages = packages; pkg = find_package package_id packages }) found
        (found, s.1)
  load_package-Arrives get_packages (failed err) hint v q d s = (s, tt)
  load_package-Arrives (get_repos (some p)) (listed repos) hint v q d s =
      either (not (truthy (find_repo_url p.repo repos))) _ _ (arrive-Arrived (some p) v q) (s, q)
  load_package-Arrives (get_repos (some p)) (failed err) hint v q d s = arrive-Arrived (some p) v q
  load_package-Arrives (get_manifest p url) (loaded packages) hint v q d s =
      arrive-Arrived (some (merge_manifest p url packages)) v
        (rw (merge_manifest-id p url packages) q)
  load_package-Arrives (get_manifest p url) (failed err) hint v q d s = arrive-Arrived (some p) v q
  load_package-Arrives _ a hint v q d s = tt

  pub page-IsKept :
      IsKept (page lower path token package_id) ShowsPackage ForAsked (ListsByIds package_id)
  unfolding page
  page-IsKept = record { first = tt; loads = load_package-Arrives; types = λ text hint v s. s }
