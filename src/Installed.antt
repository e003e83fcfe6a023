-- ===== src/Installed.antt =====
-- frontend/kindle/pages/installed/installed.js: the page "Installed", which lists the installed
-- packages. Its handlers are those of Session; here is what it lists and writes.
pub mod Cards
use zen_pm.Prelude.{
  ℕ, List, [], ◌∷◌, ◌++◌, Option, Bool, true, false, Text, lit, if◌then◌else◌, truthy, length, none,
  select,
}
use zen_pm.Package.{Package}
use zen_pm.Session.{Session, Event}
use zen_pm.Listing.{is_empty, Listing, Wording, empty_list, list_page}
use zen_pm.Session.Page.{Page}
use zen_pm.Session.Events.{run, init}
use zen_pm.Search.{query_of, matches, count_text}

unfoldable pub max_retries : ℕ
max_retries = 8

-- `state.packages.filter(function (p) { return p.installed; })`
unfoldable pub only_installed : List Package → List Package
only_installed packages = select (λ p. p.installed) packages

module _ (lower : Text → Text) where
  unfoldable pub visible : Text → List Package → List Package
  unfolding only_installed
  visible value packages =
      let query = query_of lower value in
      let installed = only_installed packages in
      if truthy query then select (matches lower query) installed else installed

  unfoldable pub hint_for : Text → List Package → List Package → Text
  hint_for value packages shown =
      let query = query_of lower value in
      if is_empty shown
      then (if truthy query
          then lit "No installed packages match \"" ++ (query ++ lit "\".")
          else lit "No packages installed. Browse Search to find packages.")
      else []

  unfoldable pub heading_for : Text → List Package → List Package → Text
  unfolding only_installed
  heading_for value packages shown =
      lit "Installed ("
      ++ (count_text (query_of lower value) (only_installed packages) shown ++ lit ")")

  unfoldable pub wording : Wording
  unfolding visible hint_for heading_for
  wording = record {
    visible = visible;
    hint_for = hint_for;
    heading_for = heading_for;
    hides_hint = true;
  }

  unfoldable pub page : Text → Page Listing
  unfolding wording max_retries list_page
  page path = list_page lower path wording max_retries

  -- The page after the given events.
  unfoldable pub open_page : Text → (Text → Text) → List Event → Session Listing
  unfolding page
  open_page path encode events = run encode (page path) (init none empty_list) events
