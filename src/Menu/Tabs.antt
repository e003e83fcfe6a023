-- ===== src/Menu/Tabs.antt =====
-- The current tab of the navigation bar (renderNavbar and packageDetailsURL of
-- frontend/kindle/utils.js).
use zen_pm.Prelude.{
  ℕ, ◌+◌, ◌≡◌, refl, List, [], ◌∷◌, Bool, true, false, ◌&&◌, not, Text, lit, ◌===◌, if◌then◌else◌,
}
use zen_pm.Strings.{contains}
use zen_pm.Details.{from_tab}
use zen_pm.Menu.{Link, tabs, render_navbar}

-- The tabs that are shown as the current one.
abbrev pub active_count : List Link → ℕ
active_count [] = 0
active_count (l ∷ links) = let rest = active_count links in if l.active then 1 + rest else rest

-- The bar of a page that was opened from any other shows exactly one tab as the current one, for the
-- name of the tab that packageDetailsURL puts into the address.
pub render_navbar-from_tab :
    (path opened_from : Text) → active_count (render_navbar path (from_tab opened_from)) ≡ 1
unfolding render_navbar tabs from_tab lit ◌===◌
render_navbar-from_tab path opened_from =
    by_tab (contains (lit "/index.html") opened_from && not (contains (lit "/pages/") opened_from))
      (contains (lit "/pages/source-details/") opened_from)
      (contains (lit "/pages/installed/") opened_from)
  where
    by_tab :
        (home sources installed : Bool)
        → active_count (
            render_navbar path (
              if home
              then lit "home"
              else if sources
              then lit "sources"
              else if installed
              then lit "installed"
              else lit "search"))
          ≡ 1
    by_tab true sources installed = refl
    by_tab false true installed = refl
    by_tab false false true = refl
    by_tab false false false = refl
