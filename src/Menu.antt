-- ===== src/Menu.antt =====
-- The navigation bar and the system menu of frontend/kindle/utils.js: renderNavbar, the updates, the
-- preference for beta updates and the About box. Messages to the Kindle's own framework are left
-- out.
pub mod Tabs
pub mod System
use zen_pm.Prelude.{
  ℕ, ◌+◌, List, [], ◌∷◌, ◌++◌, map, Option, none, some, Bool, true, false, not, Text, lit, ◌===◌,
  ◌==◌, leb, if◌then◌else◌,
}
use zen_pm.Repos.{base_path}
use zen_pm.Json.{Json, string, is_truthy, get_field}
use zen_pm.Requests.{Settled, resolved, rejected}

pub record Tab : Type 0 where
  pub id : Text
  pub label : Text
  pub icon : Text
  pub href : Text

-- A tab of the bar, and whether it is shown as the current one.
pub record Link : Type 0 where
  pub tab : Tab
  pub active : Bool

unfoldable pub tabs : Text → List Tab
tabs path =
    let bp = base_path path in
    record {
      id = lit "home";
      label = lit "Featured";
      icon = bp ++ lit "/assets/star.svg";
      href = bp ++ lit "/index.html";
    }
    ∷ record {
      id = lit "sources";
      label = lit "Sources";
      icon = bp ++ lit "/assets/sources.svg";
      href = bp ++ lit "/pages/sources/index.html";
    }
    ∷ record {
      id = lit "installed";
      label = lit "Installed";
      icon = bp ++ lit "/assets/packages.svg";
      href = bp ++ lit "/pages/installed/index.html";
    }
    ∷ record {
      id = lit "search";
      label = lit "Discover";
      icon = bp ++ lit "/assets/discover.svg";
      href = bp ++ lit "/pages/search/index.html";
    }
    ∷ []

unfoldable pub render_navbar : Text → Text → List Link
unfolding tabs
render_navbar path active_tab =
    map (λ t. record { tab = t; active = t.id === active_tab }) (tabs path)

-- goBack
unfoldable pub go_back : Text → Text
go_back path = base_path path ++ lit "/pages/search/index.html"

-- Where a tap on the button "Back" of a page leads.
pub data Back : Type 0 where
  history_back : Back
  go_to : (href : Text) → Back

-- `history_length` is none where the browser keeps no history.
unfoldable pub tap_back : Text → Option ℕ → Back
tap_back home none = go_to home
tap_back home (some history_length) = if leb history_length 1 then go_to home else history_back

-- The item "zenpm-beta-updates" of localStorage, which may throw.
pub record Storage : Type 0 where
  pub works : Bool
  pub item : Option Text

abbrev is_one : Option Text → Bool
is_one none = false
is_one (some value) = value === lit "1"

unfoldable pub beta_updates_enabled : Storage → Bool
beta_updates_enabled s = if s.works then is_one s.item else false

unfoldable pub toggle_beta_updates : Storage → Storage
unfolding beta_updates_enabled
toggle_beta_updates s =
    if s.works
    then record s { item = some (if beta_updates_enabled s then lit "0" else lit "1") }
    else s

-- the path that startUpdate posts to
unfoldable pub update_path : Storage → Text
unfolding beta_updates_enabled
update_path s = lit "/update" ++ (if beta_updates_enabled s then lit "?beta=1" else [])

-- `raw.replace(/^v/, "")`
abbrev pub strip_lower_v : Text → Text
strip_lower_v [] = []
strip_lower_v (c ∷ s) = if c == b'v' then s else c ∷ s

-- The box that the page itself shows; "Close" and a tap beside it take it away.
pub record AboutBox : Type 0 where
  pub logo : Text
  pub app_name : Text
  pub version : Text
  pub author : Text
  pub year : Text
  pub button : Text

-- _renderAboutOverlay
unfoldable pub render_about_overlay : Text → AboutBox
render_about_overlay version_text = record {
  logo = lit "assets/zen.svg";
  app_name = lit "ZenPM";
  version = lit "Version: " ++ version_text;
  author = lit "Author: Anthony Gress (ZenLabs)";
  year = lit "2026";
  button = lit "Close";
}

-- How showAboutModal ends: by the Kindle's own box, or by one of the page.
pub data About : Type 0 where
  native : (message : Text) → About
  overlay : (box : AboutBox) → About

-- `version`; `none` where the version is no text, so that `replace` throws
unfoldable pub about_version : Json → Option Text
about_version body =
    let version = get_field (lit "version") body in
    if is_truthy version
    then elim version [ string s ↦ some (strip_lower_v s) | _ ↦ none ]
    else some (lit "?")

-- showAboutModal, given how its two requests settle; the second is told the message.
unfoldable pub show_about_modal : Settled Json → (Text → Settled Json) → About
unfolding about_version render_about_overlay
show_about_modal (rejected err) dialog = overlay (render_about_overlay (lit "?"))
show_about_modal (resolved body) dialog = elim (about_version body) [
  | none ↦ overlay (render_about_overlay (lit "?"))
  | some version ↦
      (let message =
          lit "Version: " ++ (version ++ lit "\nAuthor: Anthony Gress (ZenLabs)\n2026") in
        elim (dialog message) [
          | resolved answer ↦ native message
          | rejected err ↦ overlay (render_about_overlay (lit "?"))
        ])
]
