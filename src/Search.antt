-- ===== src/Search.antt =====
-- frontend/kindle/pages/search/script.js: the page "Discover", which lists all packages. Its
-- handlers are those of Session; here is what it lists and writes.
pub mod Cards
use zen_pm.Prelude.{
  ℕ, List, [], ◌∷◌, ◌++◌, Option, Bool, true, false, Text, lit, if◌then◌else◌, truthy, length, none,
  select,
}
use zen_pm.Decimal.{to_text}
use zen_pm.Strings.{contains, trim}
use zen_pm.Package.{Package}
use zen_pm.Session.{Session, Event}
use zen_pm.Listing.{is_empty, Listing, Wording, empty_list, list_page}
use zen_pm.Session.Page.{Page}
use zen_pm.Session.Events.{run, init}

unfoldable pub max_retries : ℕ
max_retries = 8

-- `shown.length + (query ? "/" + all.length : "")`
unfoldable pub count_text : Text → List Package → List Package → Text
count_text query packages shown =
    to_text (length shown) ++ (if truthy query then lit "/" ++ to_text (length packages) else [])

module _ (lower : Text → Text) where
  -- `el.pkgSearch.value.toLowerCase().trim()`
  unfoldable pub query_of : Text → Text
  query_of value = trim (lower value)

  -- `p.name.toLowerCase().indexOf(query) !== -1`
  unfoldable pub matches : Text → Package → Bool
  matches query p = contains query (lower p.name)

  unfoldable pub visible : Text → List Package → List Package
  unfolding query_of
  visible value packages =
      let query = query_of value in
      if truthy query then select (matches query) packages else packages

  unfoldable pub hint_for : Text → List Package → List Package → Text
  unfolding query_of
  hint_for value packages shown =
      let query = query_of value in
      if is_empty shown
      then (if truthy query
          then lit "No packages match \"" ++ (query ++ lit "\".")
          else lit "No packages found. Try Refresh Packages.")
      else []

  unfoldable pub heading_for : Text → List Package → List Package → Text
  unfolding query_of count_text
  heading_for value packages shown =
      lit "Discover (" ++ (count_text (query_of value) packages shown ++ lit ")")

  unfoldable pub wording : Wording
  unfolding visible hint_for heading_for
  wording = record {
    visible = visible;
    hint_for = hint_for;
    heading_for = heading_for;
    hides_hint = false;
  }

  unfoldable pub page : Text → Page Listing
  unfolding wording max_retries list_page
  page path = list_page lower path wording max_retries

  -- The page after the given events.
  unfoldable pub open_page : Text → (Text → Text) → List Event → Session Listing
  unfolding page
  open_page path encode events = run encode (page path) (init none empty_list) events
