-- ===== src/Session/Actions.antt =====
-- The functions of pages/search/script.js that act on a package, up to the request.
-- `encode` is encodeURIComponent.
use zen_pm.Prelude.{[], ◌∷◌, ◌++◌, some, Bool, true, not, Text, lit, if◌then◌else◌, truthy}
use zen_pm.Package.{Package}
use zen_pm.Session.{
  Action, install, reinstall, uninstall, PendingOp, notice, modify, confirm, Task, assets, post,
  Session,
}

abbrev pub show_modal : {V : Type 0} → Text → Text → Text → Session V → Session V
show_modal title message class_name s = record s { modal = some (notice title message class_name) }

unfoldable pub set_busy : {V : Type 0} → Bool → Text → Session V → Session V
set_busy flag message s = record s {
  busy = flag;
  hint = if truthy message then message else s.hint;
}

abbrev pub add_task : {V : Type 0} → Task → Session V → Session V
add_task t s = record s { tasks = s.tasks ++ t ∷ [] }

unfoldable pub action_text : Action → Text
action_text install = lit "install"
action_text reinstall = lit "reinstall"
action_text uninstall = lit "uninstall"

unfoldable pub action_label : Action → Text
action_label install = lit "Installing"
action_label reinstall = lit "Reinstalling"
action_label uninstall = lit "Uninstalling"

unfoldable pub downloading : Text
downloading = lit "\n\nDownloading... Please wait."

module _ (encode : Text → Text) where
  unfoldable pub action_path : Package → Action → Text → Text
  action_path pkg action asset =
      let path = lit "/packages/" ++ (encode pkg.id ++ (lit "/" ++ action_text action)) in
      if truthy asset then path ++ (lit "?asset=" ++ encode asset) else path

  unfoldable pub begin_package_action :
      {V : Type 0} → Package → Action → Text → Session V → Session V
  unfolding set_busy
  begin_package_action pkg action asset s =
      let s = set_busy true (action_label action ++ (lit " " ++ pkg.name)) s in
      let op : PendingOp = record {
        id = pkg.id;
        name = pkg.name;
        action = action;
        was_installed = pkg.installed;
        operation_id = [];
      } in
      let s = record s { pending = some op } in
      let s =
        show_modal (action_label action) (pkg.name ++ downloading) (lit "modal-overlay-clear") s in
      add_task (post pkg action (action_path pkg action asset)) s

  unfoldable pub start_package_action : {V : Type 0} → Package → Action → Session V → Session V
  unfolding begin_package_action set_busy
  start_package_action pkg uninstall s = begin_package_action pkg uninstall [] s
  start_package_action pkg action s =
      add_task (assets pkg action) (set_busy true (lit "Finding a compatible package build...") s)

unfoldable pub perform_package_action : {V : Type 0} → Package → Session V → Session V
perform_package_action pkg s =
    if not s.connected
    then record s { hint = lit "Not connected to daemon. Try reopening the page." }
    else if s.busy
    then record s { hint = lit "Another operation is in progress. Please wait." }
    else if pkg.installed
    then record s { modal = some (modify pkg) }
    else record s { modal = some (confirm pkg install) }
