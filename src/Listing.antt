-- ===== src/Listing.antt =====
-- What the pages "Discover" and "Installed" have in common (frontend/kindle/pages/search/script.js and
-- pages/installed/installed.js): the list of packages, the search box, and how they are loaded and
-- drawn.
pub mod Ids
pub mod Display
use zen_pm.Prelude.{
  false, ◌∷◌, not, if◌then◌else◌, ℕ, Option, none, some, List, [], Bool, true, Text, lit, ◌===◌,
  first,
}
use zen_pm.Package.{Package}
use zen_pm.Cards.{Card, reconcile_package_cards}
use zen_pm.Session.{Stage, get_packages, Answer, loaded, failed}
use zen_pm.Session.Page.{Loaded, Page}

-- `state.packages`, and the elements of the page that the list is drawn in.
pub record Listing : Type 0 where
  pub packages : List Package
  pub query : Text  -- el.pkgSearch.value
  pub heading : Text
  pub hint_hidden : Bool  -- el.hint.style.display is "none"
  pub cards : List Card
  pub fresh : ℕ

-- What the two pages write differently.
pub record Wording : Type 0 where
  pub visible : Text → List Package → List Package
  pub hint_for : Text → List Package → List Package → Text
  pub heading_for : Text → List Package → List Package → Text
  pub hides_hint : Bool  -- whether the hint is hidden while packages are listed

-- `list[i].id === id`, first match
abbrev pub find_id : Text → List Package → Option Package
find_id id = first (λ p. p.id === id)

abbrev pub is_empty : List Package → Bool
is_empty [] = true
is_empty (p ∷ packages) = false

unfoldable pub empty_list : Listing
empty_list = record {
  packages = [];
  query = [];
  heading = [];
  hint_hidden = false;
  cards = [];
  fresh = 0;
}

module _ (lower : Text → Text) (path : Text) (wording : Wording) where
  -- `renderPackages`: the list, and the hint.
  unfoldable pub render_packages : Listing → Listing × Text
  render_packages l =
      let shown = wording.visible l.query l.packages in
      let (cards, fresh) = reconcile_package_cards lower path shown l.cards l.fresh in
      (
        record l {
          heading = wording.heading_for l.query l.packages shown;
          hint_hidden = if wording.hides_hint then not (is_empty shown) else l.hint_hidden;
          cards = cards;
          fresh = fresh;
        },
        wording.hint_for l.query l.packages shown,
      )

  -- The handlers of `loadPackages`: it settles without an error in either case.
  unfoldable pub load_packages : Stage → Answer → Text → Listing → Option (Loaded Listing)
  unfolding render_packages
  load_packages get_packages (loaded packages) hint l =
      let (own, hint) = render_packages (record l { packages = packages }) in
      some (record { own = own; hint = hint; next = none })
  load_packages get_packages (failed err) hint l =
      some (record { own = l; hint = lit "Failed to load packages."; next = none })
  load_packages _ a hint l = none

  -- The search box's handler.
  unfoldable pub type_in : Text → Text → Listing → Listing × Text
  unfolding render_packages
  type_in text hint l = render_packages (record l { query = text })

  unfoldable pub list_page : ℕ → Page Listing
  unfolding load_packages type_in
  list_page max_retries = record {
    first_stage = get_packages;
    load = load_packages;
    type_in = type_in;
    current = λ id l. find_id id l.packages;
    max_retries = max_retries;
    reads_version = true;
    result_class = lit "modal-overlay-clear";
    offers_info = true;
  }
