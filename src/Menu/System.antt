-- ===== src/Menu/System.antt =====
-- The system menu of the pages: setupPageChrome of frontend/kindle/utils.js. Its messages go to the
-- Kindle's own framework, which tells the page what the reader chooses.
use zen_pm.Prelude.{
  ℕ, ◌+◌, ◌≡◌, refl, List, [], ◌∷◌, ◌++◌, Option, none, some, Bool, true, false, not, Text, lit,
  ◌===◌, if◌then◌else◌, length, length-append, select, arith, one_if,
}
use zen_pm.Repos.{base_path}
use zen_pm.Menu.{Storage, toggle_beta_updates, update_path}

pub record MenuItem : Type 0 where
  pub id : Text
  pub label : Text

-- systemMenu; `position` counts its items
unfoldable pub system_menu : List MenuItem
system_menu =
    record { id = lit "ZEN_ABOUT"; label = lit "About" }
    ∷ record { id = lit "ZEN_REFRESH"; label = lit "Refresh" }
    ∷ record { id = lit "ZEN_DEBUG"; label = lit "Debug" }
    ∷ record { id = lit "ZEN_BETA_UPDATES"; label = lit "Beta updates" }
    ∷ record { id = lit "ZEN_UPDATE"; label = lit "Update" }
    ∷ []

-- What ZenUtils.getKindle gives.
pub record Kindle : Type 0 where
  pub has_messaging : Bool
  pub is_decanter : Bool

-- The message "configureChrome", by the part of the framework that it goes to.
pub data Message : Type 0 where
  chromebar : (title : Text) → (menu : List MenuItem) → Message
  pillow : (menu : List MenuItem) → Message

unfoldable pub setup_page_chrome : Option Kindle → Text → Option Message
unfolding system_menu
setup_page_chrome none title = none
setup_page_chrome (some k) title =
    if not k.has_messaging
    then none
    else if k.is_decanter
    then some (chromebar title system_menu)
    else some (pillow system_menu)

-- What the choice of an item makes the page do.
pub data Effect : Type 0 where
  refresh_sources show_about : Effect
  start_update : (path : Text) → Effect
  leave_for : (href : Text) → Effect
  set_up_again : (title : Text) → Effect

abbrev when : Bool → Effect → List Effect
when true e = e ∷ []
when false e = []

-- the listener of "systemMenuItemSelected"
unfoldable pub item_selected : Text → Text → Text → Storage → Storage × List Effect
item_selected path title data_id storage = (
  if data_id === lit "ZEN_BETA_UPDATES" then toggle_beta_updates storage else storage,
  when (data_id === lit "ZEN_REFRESH") refresh_sources
      ++ (when (data_id === lit "ZEN_UPDATE") (start_update (update_path storage))
          ++ (when (data_id === lit "ZEN_DEBUG")
                (leave_for (base_path path ++ lit "/pages/debug/index.html"))
              ++ (when (data_id === lit "ZEN_BETA_UPDATES") (set_up_again title)
                  ++ when (data_id === lit "ZEN_ABOUT") show_about))),
)

length-when : (b : Bool) (e : Effect) → length (when b e) ≡ one_if b
length-when true e = refl
length-when false e = refl

length-append5 :
    (a b c d e : List Effect)
    → length (a ++ (b ++ (c ++ (d ++ e)))) ≡ length a + length b + length c + length d + length e
length-append5 a b c d e = omega (
  arith,
  length-append a (b ++ (c ++ (d ++ e))),
  length-append b (c ++ (d ++ e)),
  length-append c (d ++ e),
  length-append d e,
)

-- The items that pass a test, counted.
abbrev count_items : (MenuItem → Bool) → List MenuItem → ℕ
count_items p [] = 0
count_items p (m ∷ ms) = one_if (p m) + count_items p ms

length-select : (p : MenuItem → Bool) (ms : List MenuItem) → length (select p ms) ≡ count_items p ms
length-select p [] = refl
length-select p (m ∷ ms) = by_test (p m) (length-select p ms)
  where
    by_test :
        (b : Bool)
        → length (select p ms) ≡ count_items p ms
        → length (let rest = select p ms in if b then m ∷ rest else rest)
          ≡ one_if b + count_items p ms
    by_test true h = omega (arith, h)
    by_test false h = omega (arith, h)

-- Each item of the system menu is handled, by one effect, and nothing else is.
pub item_selected-system_menu :
    (path title data_id : Text) (storage : Storage)
    → let (_, effects) = item_selected path title data_id storage in
      length effects ≡ length (select (λ m. data_id === m.id) system_menu)
unfolding item_selected system_menu
item_selected-system_menu path title data_id storage = omega (
  arith,
  length-select (λ m. data_id === m.id) system_menu,
  length-append5 (when (data_id === lit "ZEN_REFRESH") refresh_sources)
      (when (data_id === lit "ZEN_UPDATE") (start_update (update_path storage)))
      (when (data_id === lit "ZEN_DEBUG")
        (leave_for (base_path path ++ lit "/pages/debug/index.html")))
      (when (data_id === lit "ZEN_BETA_UPDATES") (set_up_again title))
      (when (data_id === lit "ZEN_ABOUT") show_about),
  length-when (data_id === lit "ZEN_REFRESH") refresh_sources,
  length-when (data_id === lit "ZEN_UPDATE") (start_update (update_path storage)),
  length-when (data_id === lit "ZEN_DEBUG")
      (leave_for (base_path path ++ lit "/pages/debug/index.html")),
  length-when (data_id === lit "ZEN_BETA_UPDATES") (set_up_again title),
  length-when (data_id === lit "ZEN_ABOUT") show_about,
)
