-- ===== src/SourceDetails.antt =====
-- frontend/kindle/pages/source-details/script.js: the page of one source, which lists its packages.
-- Its handlers are those of Session; here is how it loads and what it shows. `source_name` is the
-- name in the page's address, empty where there is none.
pub mod Packages
pub mod Trust
use zen_pm.Prelude.{
  ℕ, Option, none, some, List, [], Bool, true, false, ◌||◌, ◌&&◌, not, Text, lit, ◌++◌, ◌===◌,
  if◌then◌else◌, truthy, first, select, length,
}
use zen_pm.Decimal.{to_text}
use zen_pm.Strings.{contains, index_of}
use zen_pm.Images.{replace_at}
use zen_pm.Package.{Package}
use zen_pm.Repos.{Repo, repo_display_name, repo_icon_url}
use zen_pm.Cards.{Card, reconcile_package_cards}
use zen_pm.Listing.{find_id, is_empty}
use zen_pm.Session.{Stage, get_packages, get_repos, Answer, loaded, listed, failed, Session, Event}
use zen_pm.Session.Page.{Loaded, Page}
use zen_pm.Session.Events.{run, init}

-- What the top of the page displays.
pub record Header : Type 0 where
  pub heading : Text
  pub url : Text
  pub packages_heading : Text
  pub verification_icon : Text
  pub verification_label : Text
  pub icon : Text

pub record SourceView : Type 0 where
  pub repo : Option Repo
  pub packages : List Package
  pub visible : List Package
  pub header : Option Header  -- none until a source has been shown
  pub hint_hidden : Bool
  pub cards : List Card
  pub fresh : ℕ

unfoldable pub empty_source : SourceView
empty_source = record {
  repo = none;
  packages = [];
  visible = [];
  header = none;
  hint_hidden = false;
  cards = [];
  fresh = 0;
}

unfoldable pub repo_is_verified : Repo → Bool
repo_is_verified repo =
    repo.is_default || repo.trust === lit "trusted" || repo.trust === lit "signed"

unfoldable pub repo_verification_icon : Repo → Text
unfolding repo_is_verified
repo_verification_icon repo =
    if repo_is_verified repo
    then lit "../../assets/verified.svg"
    else lit "../../assets/unverified.svg"

unfoldable pub repo_verification_label : Repo → Text
unfolding repo_is_verified
repo_verification_label repo = if repo_is_verified repo then lit "Verified" else lit "Unverified"

unfoldable pub source_header : Text → Repo → List Package → Header
unfolding repo_verification_icon repo_verification_label
source_header path repo visible = record {
  heading = repo_display_name repo.name;
  url = repo.url;
  packages_heading = lit "Packages (" ++ (to_text (length visible) ++ lit ")");
  verification_icon = repo_verification_icon repo;
  verification_label = repo_verification_label repo;
  icon = repo_icon_url path repo (lit "../../assets/sources.svg");
}

-- `el.icon.onerror`: another name is tried. `resolve` is the address that the browser makes of
-- `el.icon.src`.
unfoldable pub icon_failed : (Text → Text) → Header → Header
icon_failed resolve h =
    let src = resolve h.icon in
    if truthy src && contains (lit "/favicon.svg") src
    then record h {
      icon = replace_at 12 (lit "/favicon.ico") src (index_of (lit "/favicon.svg") src);
    }
    else h

-- `list[i].name === sourceName`, first match
abbrev pub find_source : Text → List Repo → Option Repo
find_source source_name = first (λ r. r.name === source_name)

-- the packages whose `repo` is the source
abbrev pub packages_of : Text → List Package → List Package
packages_of name = select (λ p. p.repo === name)

-- Without a name in its address the page asks for nothing.
unfoldable pub opening : Text → Option Text
opening source_name = if truthy source_name then none else some (lit "No source selected.")

module _ (lower : Text → Text) (path : Text) (source_name : Text) where
  -- `renderSourceDetails`, once the list is cleared
  unfoldable pub render_source : Option Repo → SourceView → SourceView × Text
  unfolding source_header
  render_source none v =
      (record v { hint_hidden = false; visible = []; cards = [] }, lit "Source not found.")
  render_source (some repo) v =
      let visible = packages_of repo.name v.packages in
      let (cards, fresh) = reconcile_package_cards lower path visible [] v.fresh in
      (
        record v {
          visible = visible;
          header = some (source_header path repo visible);
          hint_hidden = not (is_empty visible);
          cards = cards;
          fresh = fresh;
        },
        if is_empty visible then lit "No packages found for this source." else [],
      )

  unfoldable pub render_source_details : SourceView → SourceView × Text
  unfolding render_source
  render_source_details v =
      if not (truthy source_name)
      then (record v { hint_hidden = false; visible = []; cards = [] }, lit "No source selected.")
      else render_source v.repo v

  -- `loadSourceAndPackages`: the sources first, then the packages.
  unfoldable pub load_source : Stage → Answer → Text → SourceView → Option (Loaded SourceView)
  unfolding render_source_details
  load_source (get_repos none) (listed repos) hint v =
      let own = record v { repo = find_source source_name repos } in
      some (record { own = own; hint = hint; next = some get_packages })
  load_source (get_repos none) (failed err) hint v =
      some (record { own = v; hint = lit "Failed to load source."; next = none })
  load_source get_packages (loaded packages) hint v =
      let (own, hint) = render_source_details (record v { packages = packages }) in
      some (record { own = own; hint = hint; next = none })
  load_source get_packages (failed err) hint v =
      some (record { own = v; hint = lit "Failed to load source."; next = none })
  load_source _ a hint v = none

  -- There is no search box, and the connection is not tried again.
  unfoldable pub page : Page SourceView
  unfolding load_source
  page = record {
    first_stage = get_repos none;
    load = load_source;
    type_in = λ text hint v. (v, hint);
    current = λ id v. find_id id v.packages;
    max_retries = 0;
    reads_version = false;
    result_class = [];
    offers_info = true;
  }

  -- The page after the given events.
  unfoldable pub open_page : (Text → Text) → List Event → Session SourceView
  unfolding page opening
  open_page encode events = run encode page (init (opening source_name) empty_source) events
