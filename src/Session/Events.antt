-- ===== src/Session/Events.antt =====
-- The handlers of the user's actions, and the event loop.
use zen_pm.Prelude.{
  ℕ, List, [], ◌∷◌, Option, none, some, Bool, true, false, ◌||◌, Text, if◌then◌else◌, truthy,
  get_elem?, lit,
}
use zen_pm.Package.{Package}
use zen_pm.Session.Page.{Page}
use zen_pm.Session.{
  Action, reinstall, uninstall, Modal, modify, confirm, choose, Task, health, refresh_post, Session,
  Answer, Event, click, input, refresh, dismiss, accept, pick_info, pick_reinstall, pick_uninstall,
  pick, settle,
}
use zen_pm.Session.Actions.{
  set_busy, add_task, begin_package_action, start_package_action, perform_package_action,
}
use zen_pm.Session.Loop.{resume, remove_at}

-- `hideModal`
abbrev pub hide_modal : {V : Type 0} → Session V → Session V
hide_modal s = record s { modal = none }

-- `hideModal` and the handler `onClose` of the box
unfoldable pub dismiss_modal : {V : Type 0} → Option Modal → Session V → Session V
unfolding set_busy
dismiss_modal none s = s
dismiss_modal (some (choose pkg action builds)) s = set_busy false [] (hide_modal s)
dismiss_modal (some _) s = hide_modal s

-- `showPackageDetails`, with the page that it sets out for left open
unfoldable pub show_package_details : {V : Type 0} → Package → Session V → Session V
show_package_details pkg s =
    if truthy pkg.id || truthy pkg.name then record s { leaving = true } else s

-- the handler of `showPackageActionConfirm`'s second button
unfoldable pub accept_modal : {V : Type 0} → (Text → Text) → Option Modal → Session V → Session V
unfolding start_package_action
accept_modal encode (some (confirm pkg action)) s =
    start_package_action encode pkg action (hide_modal s)
accept_modal encode _ s = s

-- the options of `showPackageModifyModal`
unfoldable pub pick_option :
    {V : Type 0} → Option Action → Bool → Option Modal → Session V → Session V
unfolding show_package_details
pick_option none offered (some (modify pkg)) s =
    if offered then show_package_details pkg (hide_modal s) else s
pick_option (some action) offered (some (modify pkg)) s = record s {
  modal = some (confirm pkg action);
}
pick_option _ _ _ s = s

-- the buttons of `choosePackageAsset`
unfoldable pub pick_build : {V : Type 0} → (Text → Text) → ℕ → Option Modal → Session V → Session V
unfolding begin_package_action
pick_build encode n (some (choose pkg action builds)) s = elim (get_elem? builds n) [
  | none ↦ s
  | some b ↦ begin_package_action encode pkg action b.asset (hide_modal s)
]
pick_build encode n _ s = s

module _ {V : Type 0} (encode : Text → Text) (page : Page V) where
  -- One task settles: it leaves the list, and its callbacks run.
  unfoldable pub settle_task : ℕ → Option Task → Answer → Session V → Session V
  settle_task n none a s = s
  settle_task n (some t) a s =
      elim (resume encode page t a (record s { tasks = remove_at n s.tasks })) [
        | none ↦ s
        | some s' ↦ s'
      ]

  unfoldable pub step : Session V → Event → Session V
  unfolding settle_task dismiss_modal accept_modal pick_option pick_build
  step s (click pkg) = perform_package_action pkg s
  step s (input text) =
      let (own, hint) = page.type_in text s.hint s.own in record s { own = own; hint = hint }
  step s refresh = add_task refresh_post s
  step s dismiss = dismiss_modal s.modal s
  step s accept = accept_modal encode s.modal s
  step s pick_info = pick_option none page.offers_info s.modal s
  step s pick_reinstall = pick_option (some reinstall) page.offers_info s.modal s
  step s pick_uninstall = pick_option (some uninstall) page.offers_info s.modal s
  step s (pick n) = pick_build encode n s.modal s
  step s (settle n a) = settle_task n (get_elem? s.tasks n) a s

  unfoldable pub run : Session V → List Event → Session V
  unfolding step
  run s [] = s
  run s (e ∷ events) = run (step s e) events

-- After `init`: the first request is sent; or, where the page was opened for nothing, its hint says so.
unfoldable pub init : {V : Type 0} → Option Text → V → Session V
init none own = record {
  own = own;
  busy = true;
  connected = false;
  pending = none;
  retry_count = 0;
  hint = lit "Connecting...";
  modal = none;
  leaving = false;
  tasks = health ∷ [];
}
init (some message) own = record {
  own = own;
  busy = false;
  connected = false;
  pending = none;
  retry_count = 0;
  hint = message;
  modal = none;
  leaving = false;
  tasks = [];
}
