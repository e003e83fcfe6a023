-- ===== src/Details/Enrich.antt =====
-- Lemmas on enrichPackageFromRepoManifest of frontend/kindle/pages/package-details/script.js.
use zen_pm.Prelude.{
  ◌≡◌, refl, List, Option, none, some, Bool, true, false, not, Text, if◌then◌else◌, truthy, first,
  ◌===◌, lit, ◌++◌,
}
use zen_pm.Strings.{trim_right_slashes}
use zen_pm.Images.{cache_bust_package_image}
use zen_pm.Repos.{Repo, kindleforge_name}
use zen_pm.Package.{Package}
use zen_pm.Details.{enrich_package, find_repo_url, merge_repo_metadata}

-- The fields by which the page acts on a package, and those that say whether it may be trusted.
pub record SamePackage (p q : Package) : Type 0 where
  pub same_id : p.id ≡ q.id
  pub same_repo : p.repo ≡ q.repo
  pub same_installed : p.installed ≡ q.installed
  pub same_repo_trust : p.repo_trust ≡ q.repo_trust
  pub same_repo_default : p.repo_default ≡ q.repo_default

itself : (p : Package) → SamePackage p p
itself p = record {
  same_id = refl;
  same_repo = refl;
  same_installed = refl;
  same_repo_trust = refl;
  same_repo_default = refl;
}

either :
    (p : Package) (b : Bool) (x y : Package)
    → SamePackage x p
    → SamePackage y p
    → SamePackage (if b then x else y) p
either p true x y h k = h
either p false x y h k = k

-- However the two requests end and whatever the manifest says, the page keeps the id, the
-- repository, the trust and the installed state that the daemon reported.
pub enrich_package-SamePackage :
    (token : Text) (pkg : Package) (repos : Option (List Repo))
    (manifest_at : Text → Option (List Package))
    → SamePackage (enrich_package token pkg repos manifest_at) pkg
unfolding enrich_package
enrich_package-SamePackage token pkg repos manifest_at =
    either pkg (not (truthy pkg.repo)) _ _ (itself pkg)
      (either pkg (pkg.repo === kindleforge_name) _ _ (itself pkg) (of_repos repos))
  where
    merged :
        (o : Option Package) (url : Text)
        → SamePackage
            (elim o as (λ _. Package) [ none ↦ pkg | some r ↦ merge_repo_metadata pkg r url ])
            pkg
    merged none url = itself pkg
    merged (some r) url =
        unfold merge_repo_metadata in
        record {
          same_id = refl;
          same_repo = refl;
          same_installed = refl;
          same_repo_trust = refl;
          same_repo_default = refl;
        }

    of_manifest :
        (o : Option (List Package)) (url : Text)
        → SamePackage
            (elim o as (λ _. Package) [
              | none ↦ pkg
              | some packages ↦ elim (first (λ p. p.id === pkg.id) packages) as (λ _. Package) [
                | none ↦ pkg
                | some r ↦ merge_repo_metadata pkg r url
              ]
            ])
            pkg
    of_manifest none url = itself pkg
    of_manifest (some packages) url = merged (first (λ p. p.id === pkg.id) packages) url

    of_repos :
        (o : Option (List Repo))
        → SamePackage
            (elim o as (λ _. Package) [
              | none ↦ pkg
              | some list ↦
                  (let url = find_repo_url pkg.repo list in
                    if not (truthy url)
                    then pkg
                    else elim (manifest_at (
                          cache_bust_package_image token
                            (trim_right_slashes url ++ lit "/manifest.json")))
                        as (λ _. Package) [
                          | none ↦ pkg
                          | some packages ↦
                              elim (first (λ p. p.id === pkg.id) packages) as (λ _. Package) [
                                | none ↦ pkg
                                | some r ↦ merge_repo_metadata pkg r url
                              ]
                        ])
            ])
            pkg
    of_repos none = itself pkg
    of_repos (some list) =
        either pkg (not (truthy (find_repo_url pkg.repo list))) _ _ (itself pkg)
          (of_manifest _ (find_repo_url pkg.repo list))
