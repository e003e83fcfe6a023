-- ===== src/Session/Kept.antt =====
-- What the loads of a page keep true of its own state, under every event.
use zen_pm.Prelude.{
  ◌+◌, ℕ, ◌≡◌, refl, List, [], ◌∷◌, Option, none, some, Bool, true, false, ◌&&◌, not, Text, truthy,
  get_elem?, All, leb, ltb,
}
use zen_pm.Package.{Package}
use zen_pm.Session.Page.{Page, Loaded}
use zen_pm.Session.{
  Action, reinstall, uninstall, PendingOp, Stage, Task, health, retry_timer, connect_load,
  refresh_post, refresh_load, assets, post, poll_timer, wait_op, poll_load, Session, Answer,
  healthy, auto, candidates, accepted, done, failed, Event, click, input, refresh, dismiss, accept,
  pick_info, pick_reinstall, pick_uninstall, pick, settle,
}
use zen_pm.Session.Actions.{set_busy}
use zen_pm.Session.Loop.{
  resume, remove_at, proceed, loaded_into, load_stage, retry_connect, try_connect, try_poll,
  poll_round, begin_poll, is_pending, has_succeeded, max_poll_retries,
}
use zen_pm.Session.Events.{settle_task, step, run}
use zen_pm.Session.Invariant.{All-append_one, All-remove_at, All-get_elem?}
use zen_pm.Session.Keeps.{
  Arrives, IsKept, Answers, Waits, Holds, WillHold, either, add_task-Holds,
  perform_package_action-Holds, dismiss_modal-Holds, pick_option-Holds, begin_package_action-Holds,
  accept_modal-Holds, pick_build-Holds,
}

module _ {V : Type 0} (encode : Text → Text) (page : Page V) {P : V → Type 0} {Q : Stage → Type 0}
    {Good : Answer → Type 0} (kept : IsKept page P Q Good) where
  retry_connect-Holds : (s : Session V) → Holds P Q s → Holds P Q (retry_connect encode page s)
  unfolding retry_connect set_busy
  retry_connect-Holds s h =
      either P Q (ltb s.retry_count page.max_retries) _ _ (add_task-Holds P Q retry_timer s tt h) h

  try_connect-Holds :
      (a : Answer) (s : Session V) → Holds P Q s → WillHold P Q (try_connect encode page a s)
  unfolding try_connect
  try_connect-Holds (healthy is_readable) s h =
      either P Q (page.reads_version && not is_readable) _ _
        (retry_connect-Holds (record s { retry_count = 0; connected = true }) h)
        (add_task-Holds P Q (connect_load page.first_stage)
          (record s { retry_count = 0; connected = true }) kept.first h)
  try_connect-Holds (failed err) s h = retry_connect-Holds s h
  try_connect-Holds _ s h = tt

  try_poll-Holds :
      (op : PendingOp) (attempt : ℕ) (confirmed : Bool) (s : Session V)
      → Holds P Q s
      → Holds P Q (try_poll encode page op attempt confirmed s)
  unfolding try_poll
  try_poll-Holds op attempt confirmed s h =
      either P Q (truthy op.operation_id && not confirmed) _ _
        (add_task-Holds P Q (wait_op op attempt) s tt h)
        (add_task-Holds P Q (poll_load op (attempt + 1) confirmed page.first_stage) s kept.first h)

  poll_round-Holds :
      (op : PendingOp) (attempt : ℕ) (confirmed : Bool) (s : Session V)
      → Holds P Q s
      → Holds P Q (poll_round encode page op attempt confirmed s)
  unfolding poll_round
  poll_round-Holds op attempt confirmed s h = either P Q (not (is_pending op.id s.pending)) _ _ h (
      either P Q (has_succeeded confirmed op (page.current op.id s.own)) _ _ h (
        either P Q (leb max_poll_retries attempt) _ _ h
          (add_task-Holds P Q (poll_timer op attempt) s tt h)))

  begin_poll-Holds :
      (pkg : Package) (action : Action) (operation_id : Text) (s : Session V)
      → Holds P Q s
      → Holds P Q (begin_poll encode page pkg action operation_id s)
  unfolding begin_poll
  begin_poll-Holds pkg action operation_id s h = by_pending s.pending
    where
      by_pending :
          (p : Option PendingOp)
          → Holds P Q (begin_poll encode page pkg action operation_id (record s { pending = p }))
      by_pending none = h
      by_pending (some op) = (h.0, All-append_one (Waits Q) s.tasks (poll_timer _ 0) h.1 tt)

  -- One request of a load settles, and the load goes on or ends.
  proceed-Holds :
      (again : Stage → Task) (after : Session V → Session V) (st : Stage) (a : Answer)
      (s : Session V)
      → Q st
      → Good a
      → Holds P Q s
      → ((st' : Stage) → Q st' → Waits Q (again st'))
      → ((s' : Session V) → Holds P Q s' → Holds P Q (after s'))
      → WillHold P Q (proceed again after (load_stage encode page st a s))
  unfolding load_stage
  proceed-Holds again after st a s q g h waits last =
      arrived (page.load st a s.hint s.own) (kept.loads st a s.hint s.own q g h.0)
    where
      arrived :
          (o : Option (Loaded V))
          → Arrives P Q o
          → WillHold P Q (proceed again after (loaded_into encode page s o))
      arrived none k = tt
      arrived (some l) k = onward l.next k.1
        where
          onward :
              (next : Option Stage)
              → elim next as (λ _. Type 0) [ none ↦ Unit | some st' ↦ Q st' ]
              → WillHold P Q
                  (proceed again after (some (record s { own = l.own; hint = l.hint }, next)))
          onward none w = last _ (k.0, h.1)
          onward (some st') w =
              (k.0, All-append_one (Waits Q) s.tasks (again st') h.1 (waits st' w))

  resume-Holds :
      (t : Task) (a : Answer) (s : Session V)
      → Waits Q t
      → Good a
      → Holds P Q s
      → WillHold P Q (resume encode page t a s)
  unfolding resume set_busy
  resume-Holds health a s w g h = try_connect-Holds a s h
  resume-Holds retry_timer done s w g h = add_task-Holds P Q health s tt h
  resume-Holds (connect_load st) a s w g h =
      proceed-Holds connect_load (set_busy false []) st a s w g h (λ st' q. q) (λ s' k. k)
  resume-Holds refresh_post done s w g h =
      add_task-Holds P Q (refresh_load page.first_stage) s kept.first h
  resume-Holds refresh_post (failed err) s w g h =
      add_task-Holds P Q (refresh_load page.first_stage) s kept.first h
  resume-Holds (refresh_load st) a s w g h =
      proceed-Holds refresh_load (λ s'. s') st a s w g h (λ st' q. q) (λ s' k. k)
  resume-Holds (assets pkg action) (auto asset) s w g h =
      begin_package_action-Holds P Q encode pkg action asset s h
  resume-Holds (assets pkg action) (candidates []) s w g h = h
  resume-Holds (assets pkg action) (candidates (b ∷ bs)) s w g h = h
  resume-Holds (assets pkg action) (failed err) s w g h = h
  resume-Holds (post pkg action request) (accepted operation_id) s w g h =
      begin_poll-Holds pkg action operation_id s h
  resume-Holds (post pkg action request) (failed err) s w g h = h
  resume-Holds (poll_timer op attempt) done s w g h = try_poll-Holds op attempt false s h
  resume-Holds (wait_op op attempt) done s w g h = try_poll-Holds op attempt true s h
  resume-Holds (wait_op op attempt) (failed err) s w g h = h
  resume-Holds (poll_load op attempt confirmed st) a s w g h =
      proceed-Holds (poll_load op attempt confirmed) (poll_round encode page op attempt confirmed)
        st a s w g h (λ st' q. q) (poll_round-Holds op attempt confirmed)
  resume-Holds _ _ s w g h = tt

  settle_task-Holds :
      (n : ℕ) (o : Option Task) (a : Answer) (s : Session V)
      → get_elem? s.tasks n ≡ o
      → Good a
      → Holds P Q s
      → Holds P Q (settle_task encode page n o a s)
  unfolding settle_task
  settle_task-Holds n none a s e g h = h
  settle_task-Holds n (some t) a s e g h = settled _ (
      resume-Holds t a (record s { tasks = remove_at n s.tasks })
        (All-get_elem? (Waits Q) n s.tasks e h.1) g (h.0, All-remove_at (Waits Q) n s.tasks h.1))
    where
      settled :
          (o : Option (Session V))
          → WillHold P Q o
          → Holds P Q (elim o as (λ _. Session V) [ none ↦ s | some s' ↦ s' ])
      settled none k = h
      settled (some s') k = k

  step-Holds :
      (s : Session V) (e : Event) → Answers Good e → Holds P Q s → Holds P Q (step encode page s e)
  unfolding step
  step-Holds s (click pkg) g h = perform_package_action-Holds P Q pkg s h
  step-Holds s (input text) g h = (kept.types text s.hint s.own h.0, h.1)
  step-Holds s refresh g h = add_task-Holds P Q refresh_post s tt h
  step-Holds s dismiss g h = dismiss_modal-Holds P Q s.modal s h
  step-Holds s accept g h = accept_modal-Holds P Q encode s.modal s h
  step-Holds s pick_info g h = pick_option-Holds P Q none page.offers_info s.modal s h
  step-Holds s pick_reinstall g h =
      pick_option-Holds P Q (some reinstall) page.offers_info s.modal s h
  step-Holds s pick_uninstall g h =
      pick_option-Holds P Q (some uninstall) page.offers_info s.modal s h
  step-Holds s (pick n) g h = pick_build-Holds P Q encode n s.modal s h
  step-Holds s (settle n a) g h = settle_task-Holds n (get_elem? s.tasks n) a s refl g h

  pub run-Holds :
      (s : Session V) (events : List Event)
      → All (Answers Good) events
      → Holds P Q s
      → Holds P Q (run encode page s events)
  unfolding run
  run-Holds s [] gs h = h
  run-Holds s (e ∷ events) (g, gs) h =
      run-Holds (step encode page s e) events gs (step-Holds s e g h)
