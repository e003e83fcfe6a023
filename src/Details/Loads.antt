-- ===== src/Details/Loads.antt =====
-- How the page of a package loads: loadPackage and enrichPackageFromRepoManifest of
-- frontend/kindle/pages/package-details/script.js.
use zen_pm.Prelude.{
  ℕ, ◌≡◌, refl, Option, none, some, List, [], ◌++◌, Bool, true, false, not, Text, lit, ◌===◌,
  if◌then◌else◌, truthy,
}
use zen_pm.Strings.{trim_right_slashes}
use zen_pm.Images.{cache_bust_package_image}
use zen_pm.Package.{Package}
use zen_pm.Repos.{Repo, kindleforge_name}
use zen_pm.Details.{find_package, find_repo_url, enrich_package}
use zen_pm.Details.Page.{
  DetailsView, render_details, arrive, begin_enrich, merge_manifest, load_package, page,
}
use zen_pm.Session.{Stage, get_packages, get_repos, get_manifest, Answer, loaded, listed, failed}
use zen_pm.Session.Page.{Loaded}
use zen_pm.Session.Loading.{load_from}

-- How the three requests of a load are answered; `none` is a failure.
abbrev pub answers :
    Text → List Package → Option (List Repo) → (Text → Option (List Package)) → Stage → Answer
answers token packages repos manifest_at get_packages = loaded packages
answers token packages repos manifest_at (get_repos p) = elim repos [
  | none ↦ failed []
  | some list ↦ listed list
]
answers token packages repos manifest_at (get_manifest p url) =
    elim (manifest_at
      (cache_bust_package_image token (trim_right_slashes url ++ lit "/manifest.json"))) [
        | none ↦ failed []
        | some list ↦ loaded list
      ]

module _ (lower : Text → Text) (path : Text) (token : Text) (package_id : Text) where
  module _ (packages : List Package) (repos : Option (List Repo))
      (manifest_at : Text → Option (List Package)) where
    abbrev enriched : Package → Package
    enriched p = enrich_package token p repos manifest_at

    abbrev goes_on : ℕ → Loaded DetailsView → Option (DetailsView × Text)
    goes_on n l = elim l.next [
      | none ↦ some (l.own, l.hint)
      | some st ↦
          load_from (page lower path token package_id) (answers token packages repos manifest_at) n
            st l.hint l.own
    ]

    goes_on-arrive :
        (n : ℕ) (o : Option Package) (v : DetailsView)
        → goes_on n (arrive lower path token o v) ≡ some (render_details lower path token o v)
    unfolding arrive
    goes_on-arrive n o v = refl

    by_manifest :
        (p : Package) (url : Text) (hint : Text) (v : DetailsView)
        → goes_on 1 (record { own = v; hint = hint; next = some (get_manifest p url) })
          ≡ some (
              render_details lower path token
                (some
                  (elim (manifest_at (
                      cache_bust_package_image token
                        (trim_right_slashes url ++ lit "/manifest.json")))
                    as (λ _. Package) [ none ↦ p | some list ↦ merge_manifest p url list ]))
                v)
    unfolding load_from page load_package arrive
    by_manifest p url hint v = answered (
        manifest_at
          (cache_bust_package_image token (trim_right_slashes url ++ lit "/manifest.json")))
      where
        answered :
            (o : Option (List Package))
            → elim (load_package lower path token package_id
                  (get_manifest p url)
                  (elim o as (λ _. Answer) [ none ↦ failed [] | some list ↦ loaded list ])
                  hint
                  v)
                as (λ _. Option (DetailsView × Text)) [
                  | none ↦ none
                  | some l ↦ elim l.next as (λ _. Option (DetailsView × Text)) [
                    | none ↦ some (l.own, l.hint)
                    | some st' ↦ none
                  ]
                ]
              ≡ some (
                  render_details lower path token
                    (some (elim o as (λ _. Package) [
                      | none ↦ p
                      | some list ↦ merge_manifest p url list
                    ]))
                    v)
        answered none = refl
        answered (some list) = refl

    -- The page after the load shows the package that is given.
    abbrev Ends : ℕ → Loaded DetailsView → Package → DetailsView → Type 0
    Ends n l p v = goes_on n l ≡ some (render_details lower path token (some p) v)

    either-Ends :
        (n : ℕ) (b : Bool) (x y : Loaded DetailsView) (p q : Package) (v : DetailsView)
        → Ends n x p v
        → Ends n y q v
        → Ends n (if b then x else y) (if b then p else q) v
    either-Ends n true x y p q v h k = h
    either-Ends n false x y p q v h k = k

    abbrev by_url : Package → Text → Package
    by_url p url =
        if not (truthy url)
        then p
        else elim (manifest_at
            (cache_bust_package_image token (trim_right_slashes url ++ lit "/manifest.json"))) [
              | none ↦ p
              | some list ↦ merge_manifest p url list
            ]

    by_repos :
        (p : Package) (hint : Text) (v : DetailsView)
        → Ends 2
            (record { own = v; hint = hint; next = some (get_repos (some p)) })
            (elim repos [ none ↦ p | some list ↦ by_url p (find_repo_url p.repo list) ])
            v
    unfolding load_from page load_package
    by_repos p hint v = answered repos
      where
        answered :
            (o : Option (List Repo))
            → elim (load_package lower path token package_id
                  (get_repos (some p))
                  (elim o as (λ _. Answer) [ none ↦ failed [] | some list ↦ listed list ])
                  hint
                  v)
                as (λ _. Option (DetailsView × Text)) [ none ↦ none | some l ↦ goes_on 1 l ]
              ≡ some (
                  render_details lower path token
                    (some (elim o as (λ _. Package) [
                      | none ↦ p
                      | some list ↦ by_url p (find_repo_url p.repo list)
                    ]))
                    v)
        answered none = goes_on-arrive 1 (some p) v
        answered (some list) =
            let url = find_repo_url p.repo list in
            either-Ends 1 (not (truthy url)) _ _ p _ v (goes_on-arrive 1 (some p) v)
              (by_manifest p url hint v)

    begin_enrich-Ends :
        (p : Package) (hint : Text) (v : DetailsView)
        → Ends 2 (begin_enrich lower path token (some p) hint v) (enriched p) v
    unfolding begin_enrich enrich_package merge_manifest
    begin_enrich-Ends p hint v =
        either-Ends 2 (not (truthy p.repo)) _ _ p _ v (goes_on-arrive 2 (some p) v) (
          either-Ends 2 (p.repo === kindleforge_name) _ _ p _ v (goes_on-arrive 2 (some p) v)
            (by_repos p hint v))

    -- A load that nothing interrupts, whose first request is answered by `packages`, ends after three
    -- requests at most with the page showing the package that the address asks for, completed as
    -- `enrich_package` does it from the answers of the other two, whether or not they fail; where
    -- there is no such package, it ends with the page showing none.
    pub load_from-enrich_package :
        (hint : Text) (v : DetailsView)
        → load_from
            (page lower path token package_id)
            (answers token packages repos manifest_at)
            3
            get_packages
            hint
            v
          ≡ some (
              render_details lower path token
                (elim (find_package package_id packages) [
                  | none ↦ none
                  | some p ↦ some (enriched p)
                ])
                (record v { packages = packages }))
    unfolding load_from page load_package
    load_from-enrich_package hint v = found (find_package package_id packages)
      where
        found :
            (o : Option Package)
            → goes_on 2
                (begin_enrich lower path token o hint (record v { packages = packages; pkg = o }))
              ≡ some (
                  render_details lower path token
                    (elim o as (λ _. Option Package) [ none ↦ none | some p ↦ some (enriched p) ])
                    (record v { packages = packages }))
        found none = unfold begin_enrich in goes_on-arrive 2 none (record v { packages = packages })
        found (some p) = begin_enrich-Ends p hint (record v { packages = packages; pkg = some p })
