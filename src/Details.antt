-- ===== src/Details.antt =====
-- The way to the page of one package, and what that page shows: packageDetailsURL of
-- frontend/kindle/utils.js, and the functions of pages/package-details/script.js that read the
-- address, find the package and complete it from its repository's manifest. `encode` is
-- encodeURIComponent; `decode` is decodeURIComponent, with `none` where it throws.
pub mod Query
pub mod Enrich
pub mod Page
pub mod Shown
pub mod Loads
pub mod Finite
use zen_pm.Prelude.{
  ℕ, List, [], ◌∷◌, ◌++◌, map, Option, none, some, Bool, true, false, ◌&&◌, ◌||◌, not, Text, lit,
  ◌===◌, ◌==◌, if◌then◌else◌, truthy, ◌or◌, first,
}
use zen_pm.Strings.{contains, split, drop, starts_with, trim_left_slashes, trim_right_slashes}
use zen_pm.Repos.{Repo, base_path, kindleforge_name}
use zen_pm.Images.{cache_bust_package_image}
use zen_pm.Package.{Package}

-- `from` of packageDetailsURL
unfoldable pub from_tab : Text → Text
from_tab path =
    if contains (lit "/index.html") path && not (contains (lit "/pages/") path)
    then lit "home"
    else if contains (lit "/pages/source-details/") path
    then lit "sources"
    else if contains (lit "/pages/installed/") path
    then lit "installed"
    else lit "search"

-- The query of packageDetailsURL, and the whole address.
unfoldable pub details_search : (Text → Text) → Text → Package → Text
details_search encode path pkg =
    lit "?id=" ++ (encode (pkg.id or (pkg.name or [])) ++ (lit "&from=" ++ encode (from_tab path)))

unfoldable pub package_details_url : (Text → Text) → Text → Package → Text
unfolding details_search
package_details_url encode path pkg =
    base_path path ++ (lit "/pages/package-details/index.html" ++ details_search encode path pkg)

-- `s.replace(/\+/g, " ")`
abbrev pub plus_to_space : Text → Text
plus_to_space = map (λ c. if c == 43 then 32 else c)

-- `pair[0] || ""` and `pair[1] || ""` of `part.split("=")`
abbrev pub key_of : List Text → Text
key_of [] = []
key_of (k ∷ rest) = k

abbrev pub value_of : List Text → Text
value_of [] = []
value_of (k ∷ []) = []
value_of (k ∷ v ∷ rest) = v

-- One turn of the loop of `queryValue`; `none` where a decoding throws.
unfoldable pub match_pair : (Text → Option Text) → Text → List Text → Option Text → Option Text
match_pair decode name pair later = elim (decode (key_of pair)) [
  | none ↦ none
  | some k ↦ if k === name then decode (plus_to_space (value_of pair)) else later
]

unfoldable pub query_parts : (Text → Option Text) → Text → List Text → Option Text
unfolding match_pair
query_parts decode name [] = some []
query_parts decode name (part ∷ parts) =
    let later = query_parts decode name parts in match_pair decode name (split b'=' part) later

-- `queryValue(name)`, `search` being window.location.search
unfoldable pub query_value : (Text → Option Text) → Text → Text → Option Text
unfolding query_parts
query_value decode name search = query_parts decode name (split b'&' (drop 1 search))

unfoldable pub find_package : Text → List Package → Option Package
find_package package_id = first (λ p. p.id === package_id || p.name === package_id)

unfoldable pub is_absolute : Text → Bool
is_absolute value =
    starts_with (lit "http://") value
    || starts_with (lit "https://") value
    || starts_with (lit "file://") value

unfoldable pub resolve_repo_url : Text → Text → Text
unfolding is_absolute
resolve_repo_url base value =
    if not (truthy value)
    then []
    else if is_absolute value
    then value
    else trim_right_slashes base ++ (lit "/" ++ trim_left_slashes value)

-- `repoPkg` is an entry of the manifest's list of packages, which has the fields of a package.
unfoldable pub merge_repo_metadata : Package → Package → Text → Package
unfolding resolve_repo_url
merge_repo_metadata pkg repo_pkg repo_url = record pkg {
  name = repo_pkg.name or pkg.name;
  description = repo_pkg.description or pkg.description;
  author = repo_pkg.author or pkg.author;
  version = repo_pkg.version or pkg.version;
  icon_url =
      if truthy repo_pkg.icon_url
      then resolve_repo_url repo_url repo_pkg.icon_url
      else pkg.icon_url;
  featured_image =
      if truthy repo_pkg.featured_image
      then resolve_repo_url repo_url repo_pkg.featured_image
      else pkg.featured_image;
  featured = repo_pkg.featured || pkg.featured;
}

unfoldable pub find_repo_url : Text → List Repo → Text
find_repo_url name [] = []
find_repo_url name (r ∷ repos) = if r.name === name then r.url else find_repo_url name repos

-- `enrichPackageFromRepoManifest`, given how its two requests settle: `none` is a failure. `token`
-- is packageImageRefreshToken.
unfoldable pub enrich_package :
    Text → Package → Option (List Repo) → (Text → Option (List Package)) → Package
unfolding find_repo_url merge_repo_metadata
enrich_package token pkg repos manifest_at =
    if not (truthy pkg.repo)
    then pkg
    else if pkg.repo === kindleforge_name
    then pkg
    else elim repos [
      | none ↦ pkg
      | some list ↦
          (let url = find_repo_url pkg.repo list in
            if not (truthy url)
            then pkg
            else elim (manifest_at
                (cache_bust_package_image token (trim_right_slashes url ++ lit "/manifest.json"))) [
                  | none ↦ pkg
                  | some packages ↦ elim (first (λ p. p.id === pkg.id) packages) [
                    | none ↦ pkg
                    | some repo_pkg ↦ merge_repo_metadata pkg repo_pkg url
                  ]
                ])
    ]
