-- ===== src/Session/Loop.antt =====
-- The callbacks of a page (frontend/kindle/pages/search/script.js): loading, the connection, polling
-- after an action, and the boxes.
use zen_pm.Prelude.{
  ℕ, zero, suc, ◌+◌, List, [], ◌∷◌, ◌++◌, Option, none, some, Bool, true, false, not, ◌||◌, ◌&&◌,
  Text, lit, ◌===◌, leb, ltb, if◌then◌else◌, truthy, ◌or◌,
}
use zen_pm.Package.{Package}
use zen_pm.Session.Page.{Loaded, Page}
use zen_pm.Session.{
  install, reinstall, uninstall, Action, PendingOp, choose, Stage, Task, health, retry_timer,
  connect_load, refresh_post, refresh_load, assets, post, poll_timer, wait_op, poll_load, Session,
  Answer, healthy, auto, candidates, accepted, done, failed,
}
use zen_pm.Session.Actions.{show_modal, set_busy, add_task, action_text, begin_package_action}

unfoldable pub max_poll_retries : ℕ
max_poll_retries = 20

unfoldable pub unavailable : Text
unavailable =
    lit
      "ZenPM daemon not reachable. Re-run ZenPM.sh if it is not running. If Airplane Mode is on, Kindle WAF may block local HTTP."

-- `pkg && pkg.installed`, and `pkg && pkg.installed !== was`
abbrev is_installed : Option Package → Bool
is_installed none = false
is_installed (some p) = p.installed

abbrev pub differs : Bool → Bool → Bool
differs true b = not b
differs false b = b

abbrev has_changed : Option Package → Bool → Bool
has_changed none was = false
has_changed (some p) was = differs p.installed was

unfoldable pub done_action : Action → Text
done_action install = lit "installed"
done_action reinstall = lit "reinstalled"
done_action uninstall = lit "uninstalled"

-- whether one round of polling sees the action done
unfoldable pub has_succeeded : Bool → PendingOp → Option Package → Bool
has_succeeded confirmed op pkg = confirmed || elim op.action [
  | reinstall ↦ is_installed pkg
  | install ↦ has_changed pkg op.was_installed
  | uninstall ↦ has_changed pkg op.was_installed
]

abbrev name_of : Option Package → Text
name_of none = []
name_of (some p) = p.name

abbrev pub is_pending : Text → Option PendingOp → Bool
is_pending id none = false
is_pending id (some op) = op.id === id

abbrev pub remove_at : {A : Type 0} → ℕ → List A → List A
remove_at n [] = []
remove_at zero (x ∷ xs) = xs
remove_at (suc n) (x ∷ xs) = x ∷ remove_at n xs

-- Where a load goes on by another request, and what follows the last.
abbrev pub proceed :
    {V : Type 0}
    → (Stage → Task)
    → (Session V → Session V)
    → Option (Session V × Option Stage)
    → Option (Session V)
proceed again after none = none
proceed again after (some (s, none)) = some (after s)
proceed again after (some (s, some st)) = some (add_task (again st) s)

module _ {V : Type 0} (encode : Text → Text) (page : Page V) where
  abbrev pub loaded_into : Session V → Option (Loaded V) → Option (Session V × Option Stage)
  loaded_into s none = none
  loaded_into s (some l) = some (record s { own = l.own; hint = l.hint }, l.next)

  -- One request of a load settles.
  unfoldable pub load_stage : Stage → Answer → Session V → Option (Session V × Option Stage)
  load_stage st a s = loaded_into s (page.load st a s.hint s.own)

  -- `_tryConnect`, when GET /health has failed or its answer could not be read
  unfoldable pub retry_connect : Session V → Session V
  unfolding set_busy unavailable
  retry_connect s =
      if ltb s.retry_count page.max_retries
      then add_task retry_timer (record s { retry_count = s.retry_count + 1 })
      else (let s = set_busy false [] (record s { retry_count = 0 }) in
          record s { hint = unavailable })

  unfoldable pub try_connect : Answer → Session V → Option (Session V)
  unfolding retry_connect
  try_connect (healthy is_readable) s =
      let s = record s { retry_count = 0; connected = true } in
      some (
        if page.reads_version && not is_readable
        then retry_connect s
        else add_task (connect_load page.first_stage) s)
  try_connect (failed err) s = some (retry_connect s)
  try_connect _ s = none

  -- The ends of `pollAfterOp` and of a request that failed.
  abbrev pub finish : Text → Text → Session V → Session V
  finish title message s =
      show_modal title message page.result_class (record s { pending = none; busy = false })

  -- `tryPoll(confirmed)`
  unfoldable pub try_poll : PendingOp → ℕ → Bool → Session V → Session V
  try_poll op attempt confirmed s =
      if truthy op.operation_id && not confirmed
      then add_task (wait_op op attempt) s
      else add_task (poll_load op (attempt + 1) confirmed page.first_stage) s

  -- one round of `tryPoll`, once the packages are loaded
  unfoldable pub poll_round : PendingOp → ℕ → Bool → Session V → Session V
  unfolding has_succeeded done_action max_poll_retries
  poll_round op attempt confirmed s =
      let pkg = page.current op.id s.own in
      if not (is_pending op.id s.pending)
      then s
      else if has_succeeded confirmed op pkg
      then finish (lit "Done")
          ((name_of pkg or (op.name or op.id))
            ++ (lit " " ++ (done_action op.action ++ lit " successfully.")))
          s
      else if leb max_poll_retries attempt
      then finish (lit "Failed")
          (action_text op.action
            ++ (lit " of "
                ++ (op.id ++ lit " did not complete.\n\nCheck the debug log for details.")))
          s
      else add_task (poll_timer op attempt) s

  -- The error text that follows a blank line.
  abbrev because : Text → Text
  because err = lit ".\n\n" ++ err

  -- The daemon has taken the request: `state.pendingOp.operationId = ...; pollAfterOp()`.
  unfoldable pub begin_poll : Package → Action → Text → Session V → Session V
  begin_poll pkg action operation_id s = elim s.pending [
    | none ↦
        finish (lit "Error")
          (lit "Failed to "
            ++ (action_text action ++ (lit " " ++ (pkg.name ++ because (lit "TypeError")))))
          s
    | some op ↦
        (let op = record op { operation_id = operation_id } in
          add_task (poll_timer op 0) (record s { pending = some op }))
  ]

  -- What a task's callbacks do, given how it settles; the task is no longer in the list. `none`
  -- where a task of this kind cannot settle so.
  unfoldable pub resume : Task → Answer → Session V → Option (Session V)
  unfolding load_stage try_connect try_poll poll_round begin_poll set_busy
  resume health a s = try_connect a s
  resume retry_timer done s = some (add_task health s)
  resume (connect_load st) a s = proceed connect_load (set_busy false []) (load_stage st a s)
  resume refresh_post done s = some (add_task (refresh_load page.first_stage) s)
  resume refresh_post (failed err) s = some (add_task (refresh_load page.first_stage) s)
  resume (refresh_load st) a s = proceed refresh_load (λ s'. s') (load_stage st a s)
  resume (assets pkg action) (auto asset) s = some (begin_package_action encode pkg action asset s)
  resume (assets pkg action) (candidates []) s = some (
      show_modal (lit "Error")
        (lit "Could not choose a build for "
          ++ (pkg.name ++ because (lit "Error: no compatible package builds are available")))
        page.result_class (set_busy false [] s))
  resume (assets pkg action) (candidates (b ∷ bs)) s =
      some (record s { modal = some (choose pkg action (b ∷ bs)) })
  resume (assets pkg action) (failed err) s = some (
      show_modal (lit "Error") (lit "Could not choose a build for " ++ (pkg.name ++ because err))
        page.result_class (set_busy false [] s))
  resume (post pkg action path) (accepted operation_id) s =
      some (begin_poll pkg action operation_id s)
  resume (post pkg action path) (failed err) s = some (
      finish (lit "Error")
        (lit "Failed to " ++ (action_text action ++ (lit " " ++ (pkg.name ++ because err)))) s)
  resume (poll_timer op attempt) done s = some (try_poll op attempt false s)
  resume (wait_op op attempt) done s = some (try_poll op attempt true s)
  resume (wait_op op attempt) (failed err) s = some (
      finish (lit "Failed")
        (action_text op.action ++ (lit " of " ++ (op.id ++ (lit " failed.\n\n" ++ err)))) s)
  resume (poll_load op attempt confirmed st) a s =
      proceed (poll_load op attempt confirmed) (poll_round op attempt confirmed) (load_stage st a s)
  resume _ _ s = none
