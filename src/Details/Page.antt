-- ===== src/Details/Page.antt =====
-- frontend/kindle/pages/package-details/script.js: the page of one package. Its handlers are those of
-- Session; here is how it loads and what it shows. `package_id` is the key in the page's address,
-- empty where there is none; `token` is packageImageRefreshToken.
use zen_pm.Prelude.{
  ℕ, Option, none, some, List, [], ◌∷◌, ◌++◌, map, false, not, Text, lit, ◌===◌, ◌==◌,
  if◌then◌else◌, truthy, ◌or◌, first,
}
use zen_pm.Package.{Package}
use zen_pm.Repos.{kindleforge_name}
use zen_pm.Images.{cache_bust_package_image}
use zen_pm.Cards.Render.{View, render_package_card}
use zen_pm.Details.{find_package, find_repo_url, merge_repo_metadata}
use zen_pm.Session.{
  Stage, get_packages, get_repos, get_manifest, Answer, loaded, listed, failed, Session, Event,
}
use zen_pm.Session.Loop.{remove_at}
use zen_pm.Session.Page.{Loaded, Page}
use zen_pm.Session.Events.{run, init}

-- What the page displays of a package.
pub record Body : Type 0 where
  pub shown : Package  -- the package that the card's handlers hold
  pub card : View
  pub featured_image : Option Text  -- style.backgroundImage of the wide image
  pub description : Text
  pub images : List Text

pub record DetailsView : Type 0 where
  pub pkg : Option Package
  pub packages : List Package
  pub heading : Text
  pub body : Option Body

unfoldable pub empty_details : DetailsView
empty_details = record { pkg = none; packages = []; heading = []; body = none }

-- `s.replace(/"/g, "%22")`
abbrev pub escape_quotes : Text → Text
escape_quotes [] = []
escape_quotes (c ∷ s) =
    let rest = escape_quotes s in if c == 34 then lit "%22" ++ rest else c ∷ rest

-- `img.onerror` of the image at a position of the gallery: it is taken away.
unfoldable pub image_failed : ℕ → Body → Body
image_failed n b = record b { images = remove_at n b.images }

-- Without a key in its address the page asks for nothing.
unfoldable pub opening : Text → Option Text
opening package_id = if truthy package_id then none else some (lit "No package selected.")

-- its loop over the manifest's packages
unfoldable pub merge_manifest : Package → Text → List Package → Package
merge_manifest pkg url packages = elim (first (λ p. p.id === pkg.id) packages) [
  | none ↦ pkg
  | some repo_pkg ↦ merge_repo_metadata pkg repo_pkg url
]

module _ (lower : Text → Text) (path : Text) (token : Text) where
  unfoldable pub render_featured_image : Text → Text
  render_featured_image url =
      lit "url(\"" ++ (escape_quotes (cache_bust_package_image token url) ++ lit "\")")

  unfoldable pub render_body : Package → Body
  unfolding render_featured_image
  render_body pkg =
      let card = render_package_card lower path pkg in
      record {
        shown = pkg;
        card = record card {
          description = if truthy pkg.author then pkg.author else card.description;
        };
        featured_image =
            if truthy pkg.featured_image
            then some (render_featured_image pkg.featured_image)
            else none;
        description = pkg.description or lit "No description available.";
        images = map (cache_bust_package_image token) pkg.images;
      }

  -- `renderDetails`, after `state.pkg = pkg`
  unfoldable pub render_details : Option Package → DetailsView → DetailsView × Text
  unfolding render_body
  render_details none v = (record v { pkg = none; body = none }, lit "Package not found.")
  render_details (some pkg) v =
      (record v { pkg = some pkg; heading = pkg.name; body = some (render_body pkg) }, [])

  -- the end of a load
  unfoldable pub arrive : Option Package → DetailsView → Loaded DetailsView
  unfolding render_details
  arrive pkg v =
      let (own, hint) = render_details pkg v in record { own = own; hint = hint; next = none }

  -- `enrichPackageFromRepoManifest` up to its first request
  unfoldable pub begin_enrich : Option Package → Text → DetailsView → Loaded DetailsView
  unfolding arrive
  begin_enrich none hint v = arrive none v
  begin_enrich (some pkg) hint v =
      if not (truthy pkg.repo)
      then arrive (some pkg) v
      else if pkg.repo === kindleforge_name
      then arrive (some pkg) v
      else record { own = v; hint = hint; next = some (get_repos (some pkg)) }

  module _ (package_id : Text) where
    -- `loadPackage`: a failure of the last two requests leaves the package as it is.
    unfoldable pub load_package : Stage → Answer → Text → DetailsView → Option (Loaded DetailsView)
    unfolding arrive begin_enrich merge_manifest
    load_package get_packages (loaded packages) hint v =
        let pkg = find_package package_id packages in
        some (begin_enrich pkg hint (record v { packages = packages; pkg = pkg }))
    load_package get_packages (failed err) hint v =
        some (record { own = v; hint = lit "Failed to load package."; next = none })
    load_package (get_repos (some pkg)) (listed repos) hint v =
        let url = find_repo_url pkg.repo repos in
        some (
          if not (truthy url)
          then arrive (some pkg) v
          else record { own = v; hint = hint; next = some (get_manifest pkg url) })
    load_package (get_repos (some pkg)) (failed err) hint v = some (arrive (some pkg) v)
    load_package (get_manifest pkg url) (loaded packages) hint v =
        some (arrive (some (merge_manifest pkg url packages)) v)
    load_package (get_manifest pkg url) (failed err) hint v = some (arrive (some pkg) v)
    load_package _ a hint v = none

    -- There is no search box, and the connection is not tried again.
    unfoldable pub page : Page DetailsView
    unfolding load_package
    page = record {
      first_stage = get_packages;
      load = load_package;
      type_in = λ text hint v. (v, hint);
      current = λ id v. v.pkg;
      max_retries = 0;
      reads_version = false;
      result_class = lit "modal-overlay-clear";
      offers_info = false;
    }

    -- The page after the given events.
    unfoldable pub open_page : (Text → Text) → List Event → Session DetailsView
    unfolding page opening
    open_page encode events = run encode page (init (opening package_id) empty_details) events
