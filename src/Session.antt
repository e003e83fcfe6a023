-- ===== src/Session.antt =====
-- A page that lists or shows packages and acts on them: the state and handlers that the scripts of
-- frontend/kindle/pages/search, installed, source-details and package-details have each a copy of.
-- What a page shows and how it loads it is its own (`own`, see Session/Page). Of the system menu
-- only the refresh is an event.
--
-- The page runs on one event loop. A promise that has not settled and a timer that has not fired
-- are a `Task` of the state, with what its callbacks hold; an `Event` is what the user does, or
-- that one task settles. Tasks settle in any order. Messages to the log and delays are left out.
pub mod Page
pub mod Actions
pub mod Loop
pub mod Events
pub mod Invariant
pub mod Release
pub mod Preserve
pub mod Reachable
pub mod Quiet
pub mod Progress
pub mod Loading
pub mod Keeps
pub mod Kept
use zen_pm.Prelude.{ℕ, Text, Bool, Option, List}
use zen_pm.Package.{Package}
use zen_pm.Repos.{Repo}

pub data Action : Type 0 where
  install reinstall uninstall : Action

-- `state.pendingOp`; `operation_id` is empty until the daemon has given one.
pub record PendingOp : Type 0 where
  pub id : Text
  pub name : Text
  pub action : Action
  pub was_installed : Bool
  pub operation_id : Text

-- A build of a package, as GET /packages/{id}/assets lists it.
pub record Asset : Type 0 where
  pub asset : Text
  pub arch : Text

pub data Modal : Type 0 where
  notice : (title message class_name : Text) → Modal
  modify : Package → Modal
  confirm : Package → Action → Modal
  choose : Package → Action → List Asset → Modal

-- A request of a load: GET /packages; GET /repos, and the repository's manifest, for a package that
-- is being completed.
pub data Stage : Type 0 where
  get_packages : Stage
  get_repos : Option Package → Stage
  get_manifest : Package → Text → Stage

pub data Task : Type 0 where
  -- GET /health of `_tryConnect`, its retry timer, and the load that follows a success
  health retry_timer : Task
  connect_load : Stage → Task
  -- POST /repo/refresh of the system menu, and the load that follows
  refresh_post : Task
  refresh_load : Stage → Task
  -- GET /packages/{id}/assets of `choosePackageAsset`
  assets : Package → Action → Task
  -- POST of `beginPackageAction`, with its path
  post : Package → Action → Text → Task
  -- `pollAfterOp`: the timer, `waitForPackageOperation`, and the load of one round
  poll_timer wait_op : PendingOp → ℕ → Task
  poll_load : PendingOp → ℕ → Bool → Stage → Task

pub record Session (V : Type 0) : Type 0 where
  pub own : V  -- what the page lists and shows
  pub busy : Bool
  pub connected : Bool
  pub pending : Option PendingOp
  pub retry_count : ℕ
  pub hint : Text
  pub modal : Option Modal
  pub leaving : Bool  -- window.location.href was set
  pub tasks : List Task

-- How a task settles: a promise with a value or an error, or a timer that fires.
pub data Answer : Type 0 where
  healthy : Bool → Answer  -- whether `data.version` can be read: the body is not null
  loaded : List Package → Answer  -- of GET /packages, or of a manifest
  listed : List Repo → Answer
  auto : Text → Answer
  candidates : List Asset → Answer
  accepted : Text → Answer  -- `response && response.operation_id`
  done : Answer
  failed : Text → Answer  -- `String(err)`

pub data Event : Type 0 where
  click : Package → Event  -- the button of a card
  input : Text → Event  -- typing in the search box
  refresh : Event  -- the system menu
  dismiss : Event  -- "Close", "Cancel", the cross, or a tap beside the box
  accept : Event  -- the primary button of a confirmation
  pick_info pick_reinstall pick_uninstall : Event  -- the options of "Modify package"
  pick : ℕ → Event  -- a build
  settle : ℕ → Answer → Event  -- the task at that index
