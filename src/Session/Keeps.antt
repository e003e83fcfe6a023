-- ===== src/Session/Keeps.antt =====
-- What a page's loads keep true of its own state, between any two events.
use zen_pm.Prelude.{
  ℕ, [], Option, none, some, Bool, true, false, ◌||◌, not, Text, if◌then◌else◌, truthy, get_elem?,
  All,
}
use zen_pm.Package.{Package}
use zen_pm.Session.Page.{Page, Loaded}
use zen_pm.Session.{
  Action, install, reinstall, uninstall, Asset, Modal, notice, modify, confirm, choose, Stage, Task,
  connect_load, refresh_load, assets, post, poll_load, Session, Answer, Event, settle,
}
use zen_pm.Session.Actions.{
  add_task, set_busy, begin_package_action, start_package_action, perform_package_action,
}
use zen_pm.Session.Events.{
  hide_modal, dismiss_modal, accept_modal, pick_option, pick_build, show_package_details,
}
use zen_pm.Session.Invariant.{All-append_one}

-- The page's own state satisfies `P`, and the request that follows, if any, `Q`.
abbrev pub Arrives : {V : Type 0} → (V → Type 0) → (Stage → Type 0) → Option (Loaded V) → Type 0
Arrives P Q none = Unit
Arrives P Q (some l) = P l.own × elim l.next as (λ _. Type 0) [ none ↦ Unit | some st ↦ Q st ]

-- `P` of the page's own state and `Q` of the requests of its loads are kept by each answer that
-- satisfies `Good`, and by typing.
pub record IsKept {V : Type 0} (page : Page V) (P : V → Type 0) (Q : Stage → Type 0)
    (Good : Answer → Type 0) : Type 0 where
  pub first : Q page.first_stage
  pub loads :
      (st : Stage) (a : Answer) (hint : Text) (own : V)
      → Q st
      → Good a
      → P own
      → Arrives P Q (page.load st a hint own)
  pub types : (text hint : Text) (own : V) → P own → P (page.type_in text hint own).0

-- What the daemon answers in an event satisfies `Good`.
abbrev pub Answers : (Answer → Type 0) → Event → Type 0
Answers Good (settle n a) = Good a
Answers Good _ = Unit

abbrev pub Waits : (Stage → Type 0) → Task → Type 0
Waits Q (connect_load st) = Q st
Waits Q (refresh_load st) = Q st
Waits Q (poll_load op attempt confirmed st) = Q st
Waits Q _ = Unit

module _ {V : Type 0} (P : V → Type 0) (Q : Stage → Type 0) where
  -- Both hold of a session.
  abbrev pub Holds : Session V → Type 0
  Holds s = P s.own × All (Waits Q) s.tasks

  abbrev pub WillHold : Option (Session V) → Type 0
  WillHold none = Unit
  WillHold (some s) = Holds s

  pub either : (b : Bool) (x y : Session V) → Holds x → Holds y → Holds (if b then x else y)
  either true x y h k = h
  either false x y h k = k

  pub add_task-Holds : (t : Task) (s : Session V) → Waits Q t → Holds s → Holds (add_task t s)
  add_task-Holds t s w (p, h) = (p, All-append_one (Waits Q) s.tasks t h w)

  pub perform_package_action-Holds :
      (pkg : Package) (s : Session V) → Holds s → Holds (perform_package_action pkg s)
  unfolding perform_package_action
  perform_package_action-Holds pkg s h =
      either (not s.connected) _ _ h (either s.busy _ _ h (either pkg.installed _ _ h h))

  pub dismiss_modal-Holds : (m : Option Modal) (s : Session V) → Holds s → Holds (dismiss_modal m s)
  unfolding dismiss_modal set_busy
  dismiss_modal-Holds none s h = h
  dismiss_modal-Holds (some (choose _ _ _)) s h = h
  dismiss_modal-Holds (some (notice _ _ _)) s h = h
  dismiss_modal-Holds (some (modify _)) s h = h
  dismiss_modal-Holds (some (confirm _ _)) s h = h

  pub pick_option-Holds :
      (choice : Option Action) (offered : Bool) (m : Option Modal) (s : Session V)
      → Holds s
      → Holds (pick_option choice offered m s)
  unfolding pick_option show_package_details
  pick_option-Holds none offered (some (modify pkg)) s h =
      either offered _ _ (either (truthy pkg.id || truthy pkg.name) _ _ h h) h
  pick_option-Holds (some action) offered (some (modify pkg)) s h = h
  pick_option-Holds none offered none s h = h
  pick_option-Holds none offered (some (notice _ _ _)) s h = h
  pick_option-Holds none offered (some (confirm _ _)) s h = h
  pick_option-Holds none offered (some (choose _ _ _)) s h = h
  pick_option-Holds (some action) offered none s h = h
  pick_option-Holds (some action) offered (some (notice _ _ _)) s h = h
  pick_option-Holds (some action) offered (some (confirm _ _)) s h = h
  pick_option-Holds (some action) offered (some (choose _ _ _)) s h = h

  module _ (encode : Text → Text) where
    pub begin_package_action-Holds :
        (pkg : Package) (action : Action) (asset : Text) (s : Session V)
        → Holds s
        → Holds (begin_package_action encode pkg action asset s)
    unfolding begin_package_action set_busy
    begin_package_action-Holds pkg action asset s (p, h) =
        (p, All-append_one (Waits Q) s.tasks (post pkg action _) h tt)

    start_package_action-Holds :
        (pkg : Package) (action : Action) (s : Session V)
        → Holds s
        → Holds (start_package_action encode pkg action s)
    unfolding start_package_action set_busy
    start_package_action-Holds pkg install s (p, h) =
        (p, All-append_one (Waits Q) s.tasks (assets pkg install) h tt)
    start_package_action-Holds pkg reinstall s (p, h) =
        (p, All-append_one (Waits Q) s.tasks (assets pkg reinstall) h tt)
    start_package_action-Holds pkg uninstall s h = begin_package_action-Holds pkg uninstall [] s h

    pub accept_modal-Holds :
        (m : Option Modal) (s : Session V) → Holds s → Holds (accept_modal encode m s)
    unfolding accept_modal
    accept_modal-Holds (some (confirm pkg action)) s h =
        start_package_action-Holds pkg action (hide_modal s) h
    accept_modal-Holds none s h = h
    accept_modal-Holds (some (notice _ _ _)) s h = h
    accept_modal-Holds (some (modify _)) s h = h
    accept_modal-Holds (some (choose _ _ _)) s h = h

    pub pick_build-Holds :
        (n : ℕ) (m : Option Modal) (s : Session V) → Holds s → Holds (pick_build encode n m s)
    unfolding pick_build
    pick_build-Holds n (some (choose pkg action builds)) s h = picked (get_elem? builds n)
      where
        picked :
            (o : Option Asset)
            → Holds (elim o as (λ _. Session V) [
              | none ↦ s
              | some b ↦ begin_package_action encode pkg action b.asset (hide_modal s)
            ])
        picked none = h
        picked (some b) = begin_package_action-Holds pkg action b.asset (hide_modal s) h
    pick_build-Holds n none s h = h
    pick_build-Holds n (some (notice _ _ _)) s h = h
    pick_build-Holds n (some (modify _)) s h = h
    pick_build-Holds n (some (confirm _ _)) s h = h
