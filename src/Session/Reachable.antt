-- ===== src/Session/Reachable.antt =====
-- The invariant under the events of a page (frontend/kindle/pages/search/script.js).
use zen_pm.Prelude.{
  ℕ, ◌+◌, ◌≡◌, refl, List, [], ◌∷◌, ◌++◌, Option, none, some, Bool, true, false, ◌||◌, Text,
  if◌then◌else◌, truthy, get_elem?, arith,
}
use zen_pm.Package.{Package}
use zen_pm.Session.Page.{Page}
use zen_pm.Session.{
  Action, install, reinstall, uninstall, PendingOp, Asset, Modal, notice, modify, confirm, choose,
  Task, refresh_post, assets, Session, Event, click, input, refresh, dismiss, accept, pick_info,
  pick_reinstall, pick_uninstall, pick, settle,
}
use zen_pm.Session.Actions.{begin_package_action, start_package_action, perform_package_action}
use zen_pm.Session.Events.{
  hide_modal, dismiss_modal, accept_modal, pick_option, pick_build, step, run, show_package_details,
}
use zen_pm.Session.Invariant.{holds, total, holds_modal, asks, bit, Consistent, Inv, put_back}
use zen_pm.Session.Release.{begin_package_action-Inv}
use zen_pm.Session.Preserve.{settle_task-Inv}

-- Closing the box that asks for a build: nothing else keeps the page busy.
choose_free :
    {ts : List Task} {b : Bool} {p : Option PendingOp} (pkg : Package) (action : Action)
    (builds : List Asset)
    → Consistent ts (some (choose pkg action builds)) b p
    → total holds ts ≡ 0
choose_free {ts} {b} pkg action builds c = free b (total holds ts) c.held
  where
    free : (b : Bool) (n : ℕ) → n + 1 ≡ bit b → n ≡ 0
    free true n e = omega arith
    free false n e = omega arith

-- Another box, or none, in place of one that does not keep the page busy.
change_modal :
    {ts : List Task} {m : Option Modal} {b : Bool} {p : Option PendingOp} (m' : Option Modal)
    → Consistent ts m b p
    → holds_modal m ≡ 0
    → holds_modal m' ≡ 0
    → (asks m' ≡ true → b ≡ false)
    → Consistent ts m' b p
change_modal m' c h k q = record {
  held = omega (arith, c.held);
  operated = c.operated;
  belongs = c.belongs;
  quiet = q;
}

dismiss_modal-Inv :
    {V : Type 0} (m : Option Modal) (s : Session V)
    → Consistent s.tasks m s.busy s.pending
    → Inv s
    → Inv (dismiss_modal m s)
unfolding dismiss_modal
dismiss_modal-Inv none s c v = v
dismiss_modal-Inv (some (choose pkg action builds)) s c v = record {
  held = omega (arith, choose_free pkg action builds c);
  operated = c.operated;
  belongs = c.belongs;
  quiet = λ _. refl;
}
dismiss_modal-Inv (some (notice _ _ _)) s c v = change_modal none c refl refl (λ e. cc)
dismiss_modal-Inv (some (modify _)) s c v = change_modal none c refl refl (λ e. cc)
dismiss_modal-Inv (some (confirm _ _)) s c v = change_modal none c refl refl (λ e. cc)

idle_modal :
    {ts : List Task} {m : Option Modal} {p : Option PendingOp}
    → Consistent ts m false p
    → (total holds ts ≡ 0) × (holds_modal m ≡ 0)
idle_modal c = (omega (arith, c.held), omega (arith, c.held))

perform_package_action-Inv :
    {V : Type 0} (pkg : Package) (s : Session V) → Inv s → Inv (perform_package_action pkg s)
perform_package_action-Inv pkg s v = by_flags s.connected s.busy v
  where
    by_flags :
        (connected busy : Bool)
        → Consistent s.tasks s.modal busy s.pending
        → Inv (perform_package_action pkg (record s { connected = connected; busy = busy }))
    by_flags false busy v = unfold perform_package_action in v
    by_flags true true v = unfold perform_package_action in v
    by_flags true false v = unfold perform_package_action in by_installed pkg.installed
      where
        by_installed :
            (installed : Bool)
            → Inv (
                if installed
                then record s { connected = true; busy = false; modal = some (modify pkg) }
                else record s {
                  connected = true;
                  busy = false;
                  modal = some (confirm pkg install);
                })
        by_installed true = change_modal (some (modify pkg)) v (idle_modal v).1 refl (λ _. refl)
        by_installed false =
            change_modal (some (confirm pkg install)) v (idle_modal v).1 refl (λ _. refl)

-- The search for a build keeps the page busy.
await_assets :
    {ts : List Task} {p : Option PendingOp} (pkg : Package) (action : Action)
    → Consistent ts none false p
    → Consistent (ts ++ assets pkg action ∷ []) none true p
await_assets pkg action c = put_back (assets pkg action) (record {
  held = omega (arith, c.held);
  operated = omega (arith, c.operated);
  belongs = (tt, c.belongs);
  quiet = λ e. cc;
})

start_package_action-Inv :
    {V : Type 0} (encode : Text → Text) (pkg : Package) (action : Action) (s : Session V)
    → Consistent s.tasks none false s.pending
    → Inv (start_package_action encode pkg action (hide_modal s))
unfolding start_package_action
start_package_action-Inv encode pkg uninstall s v =
    begin_package_action-Inv encode pkg uninstall [] (hide_modal s) (idle_modal v).0
start_package_action-Inv encode pkg install s v = await_assets pkg install v
start_package_action-Inv encode pkg reinstall s v = await_assets pkg reinstall v

accept_modal-Inv :
    {V : Type 0} (encode : Text → Text) (m : Option Modal) (s : Session V)
    → Consistent s.tasks m s.busy s.pending
    → Inv s
    → Inv (accept_modal encode m s)
unfolding accept_modal
accept_modal-Inv encode (some (confirm pkg action)) s c v =
    start_package_action-Inv encode pkg action s
      (rw (c.quiet refl) at (change_modal none c refl refl (λ e. cc)))
accept_modal-Inv encode _ s c v = v

pick_option-Inv :
    {V : Type 0} (choice : Option Action) (offered : Bool) (m : Option Modal) (s : Session V)
    → Consistent s.tasks m s.busy s.pending
    → Inv s
    → Inv (pick_option choice offered m s)
unfolding pick_option
pick_option-Inv none false (some (modify pkg)) s c v = v
pick_option-Inv none true (some (modify pkg)) s c v =
    unfold show_package_details in leaving_Inv (truthy pkg.id || truthy pkg.name)
  where
    leaving_Inv :
        (named : Bool)
        → Inv (if named then record s { modal = none; leaving = true } else hide_modal s)
    leaving_Inv true = change_modal none c refl refl (λ e. cc)
    leaving_Inv false = change_modal none c refl refl (λ e. cc)
pick_option-Inv (some action) offered (some (modify pkg)) s c v =
    change_modal (some (confirm pkg action)) c refl refl (λ _. c.quiet refl)
pick_option-Inv _ _ _ s c v = v

pick_build-Inv :
    {V : Type 0} (encode : Text → Text) (n : ℕ) (m : Option Modal) (s : Session V)
    → Consistent s.tasks m s.busy s.pending
    → Inv s
    → Inv (pick_build encode n m s)
unfolding pick_build
pick_build-Inv encode n (some (choose pkg action builds)) s c v = picked (get_elem? builds n)
  where
    picked :
        (o : Option Asset)
        → Inv (elim o [
          | none ↦ s
          | some b ↦ begin_package_action encode pkg action b.asset (hide_modal s)
        ])
    picked none = v
    picked (some b) =
        begin_package_action-Inv encode pkg action b.asset (hide_modal s)
          (choose_free pkg action builds c)
pick_build-Inv encode n _ s c v = v

module _ {V : Type 0} (encode : Text → Text) (page : Page V) where
  -- Every event, whether the user's or the settling of a task, keeps the invariant.
  pub step-Inv : (s : Session V) (e : Event) → Inv s → Inv (step encode page s e)
  unfolding step
  step-Inv s (click pkg) v = perform_package_action-Inv pkg s v
  step-Inv s (input text) v = v
  step-Inv s refresh v = put_back refresh_post (record {
    held = omega (arith, v.held);
    operated = omega (arith, v.operated);
    belongs = (tt, v.belongs);
    quiet = v.quiet;
  })
  step-Inv s dismiss v = dismiss_modal-Inv s.modal s v v
  step-Inv s accept v = accept_modal-Inv encode s.modal s v v
  step-Inv s pick_info v = pick_option-Inv none page.offers_info s.modal s v v
  step-Inv s pick_reinstall v = pick_option-Inv (some reinstall) page.offers_info s.modal s v v
  step-Inv s pick_uninstall v = pick_option-Inv (some uninstall) page.offers_info s.modal s v v
  step-Inv s (pick n) v = pick_build-Inv encode n s.modal s v v
  step-Inv s (settle n a) v = settle_task-Inv encode page n (get_elem? s.tasks n) a s refl v

  -- From a state in which it holds, the invariant holds whatever the user does and in whatever order
  -- requests and timers settle: the page is busy exactly while one task or the box that asks for a
  -- build keeps it so, and at most one package operation runs, the one that is pending.
  pub run-Inv : (s : Session V) (events : List Event) → Inv s → Inv (run encode page s events)
  unfolding run
  run-Inv s [] v = v
  run-Inv s (e ∷ events) v = run-Inv (step encode page s e) events (step-Inv s e v)
