-- ===== src/Session/Preserve.antt =====
-- The invariant under the callbacks of tasks (frontend/kindle/pages/search/script.js).
use zen_pm.Prelude.{
  ℕ, ◌+◌, ◌≡◌, refl, sym, List, [], ◌∷◌, Option, none, some, Bool-cases, inl, inr, Bool, true,
  false, ◌&&◌, not, Text, truthy, get_elem?, arith, leb, ltb,
}
use zen_pm.Package.{Package}
use zen_pm.Session.Page.{Loaded, Page}
use zen_pm.Session.{
  Action, PendingOp, Modal, choose, Stage, Task, health, retry_timer, connect_load, refresh_post,
  refresh_load, assets, post, poll_timer, wait_op, poll_load, Session, Answer, healthy, auto,
  candidates, accepted, done, failed,
}
use zen_pm.Session.Actions.{set_busy, add_task}
use zen_pm.Session.Loop.{
  resume, remove_at, proceed, loaded_into, load_stage, try_connect, retry_connect, try_poll,
  poll_round, begin_poll, has_succeeded, max_poll_retries,
}
use zen_pm.Session.Events.{settle_task}
use zen_pm.Session.Invariant.{
  operates, holds, total, holds_modal, IsFor, Consistent, Inv, take_out, put_back, swap, release,
  All-BelongsTo,
}
use zen_pm.Session.Release.{
  finish-Consistent, begin_package_action-Inv, others_free, modal_free, Ensures,
  is_pending_of_IsFor,
}

module _ {V : Type 0} (encode : Text → Text) (page : Page V) where
  -- What the invariant reads is left alone by one request of a load, which goes on or ends.
  abbrev Arrived : (Session V → Type 0) → Option (Session V × Option Stage) → Type 0
  Arrived P none = Unit
  Arrived P (some (s, next)) = P s

  load_stage-keeps :
      (P : List Task → Option Modal → Bool → Option PendingOp → Type 0) (st : Stage) (a : Answer)
      (s : Session V)
      → P s.tasks s.modal s.busy s.pending
      → Arrived (λ s'. P s'.tasks s'.modal s'.busy s'.pending) (load_stage encode page st a s)
  unfolding load_stage
  load_stage-keeps P st a s h = arrived (page.load st a s.hint s.own)
    where
      arrived :
          (o : Option (Loaded V))
          → Arrived (λ s'. P s'.tasks s'.modal s'.busy s'.pending) (loaded_into encode page s o)
      arrived none = tt
      arrived (some l) = h

  proceed-Inv :
      {P : Session V → Type 0} (again : Stage → Task) (after : Session V → Session V)
      (o : Option (Session V × Option Stage))
      → Arrived P o
      → ((s : Session V) (st : Stage) → P s → Inv (add_task (again st) s))
      → ((s : Session V) → P s → Inv (after s))
      → Ensures Inv (proceed again after o)
  proceed-Inv again after none h more last = tt
  proceed-Inv again after (some (s, none)) h more last = last s h
  proceed-Inv again after (some (s, some st)) h more last = more s st h

  retry_connect-Inv :
      (s : Session V)
      → Consistent (health ∷ s.tasks) s.modal s.busy s.pending
      → Inv (retry_connect encode page s)
  unfolding retry_connect
  retry_connect-Inv s c = elim (Bool-cases (ltb s.retry_count page.max_retries)) [
    | inl more ↦ rw more (swap health retry_timer c refl refl tt)
    | inr last ↦ rw last (release health s.modal c refl refl (modal_free health c refl))
  ]

  try_connect-Inv :
      (a : Answer) (s : Session V)
      → Consistent (health ∷ s.tasks) s.modal s.busy s.pending
      → Ensures Inv (try_connect encode page a s)
  unfolding try_connect
  try_connect-Inv (healthy is_readable) s c =
      elim (Bool-cases (page.reads_version && not is_readable)) [
        | inl unread ↦
            rw unread (retry_connect-Inv (record s { retry_count = 0; connected = true }) c)
        | inr read ↦ rw read (swap health (connect_load page.first_stage) c refl refl tt)
      ]
  try_connect-Inv (failed err) s c = retry_connect-Inv s c
  try_connect-Inv _ s c = tt

  try_poll-Inv :
      (t : Task) (op : PendingOp) (attempt : ℕ) (confirmed : Bool) (s : Session V)
      → holds t ≡ 1
      → operates t ≡ 1
      → IsFor op.id s.pending
      → Consistent (t ∷ s.tasks) s.modal s.busy s.pending
      → Inv (try_poll encode page op attempt confirmed s)
  unfolding try_poll
  try_poll-Inv t op attempt confirmed s h o w c =
      elim (Bool-cases (truthy op.operation_id && not confirmed)) [
        | inl wait ↦ rw wait (swap t (wait_op op attempt) c (sym h) (sym o) w)
        | inr load ↦
            rw load
              (swap t (poll_load op (attempt + 1) confirmed page.first_stage) c (sym h) (sym o) w)
      ]

  poll_round-Inv :
      (op : PendingOp) (attempt : ℕ) (confirmed : Bool) (st : Stage) (s : Session V)
      → Consistent (poll_load op attempt confirmed st ∷ s.tasks) s.modal s.busy s.pending
      → Inv (poll_round encode page op attempt confirmed s)
  unfolding poll_round
  poll_round-Inv op attempt confirmed st s c =
      rw (is_pending_of_IsFor op.id s.pending c.belongs.0)
        (elim (Bool-cases (has_succeeded confirmed op (page.current op.id s.own))) [
          | inl finished ↦ rw finished (finish-Consistent _ _ c refl refl refl)
          | inr unseen ↦ elim (Bool-cases (leb max_poll_retries attempt)) [
            | inl last ↦ rw (unseen, last) (finish-Consistent _ _ c refl refl refl)
            | inr more ↦ rw (unseen, more) (swap _ (poll_timer op attempt) c refl refl c.belongs.0)
          ]
        ])

  begin_poll-Inv :
      (pkg : Package) (action : Action) (operation_id request : Text) (s : Session V)
      → Consistent (post pkg action request ∷ s.tasks) s.modal s.busy s.pending
      → Inv (begin_poll encode page pkg action operation_id s)
  unfolding begin_poll
  begin_poll-Inv pkg action operation_id request s c = by_pending s.pending c
    where
      by_pending :
          (p : Option PendingOp)
          → Consistent (post pkg action request ∷ s.tasks) s.modal s.busy p
          → Inv (begin_poll encode page pkg action operation_id (record s { pending = p }))
      by_pending none c = absurd c.belongs.0
      by_pending (some op) c =
          let idle : total operates s.tasks ≡ 0 = omega (arith, c.operated) in
          let op' : PendingOp = record op { operation_id = operation_id } in
          put_back (poll_timer op' 0) (record {
            held = c.held;
            operated = omega arith;
            belongs = (refl, All-BelongsTo (some op') s.tasks idle);
            quiet = c.quiet;
          })

  -- Whatever a task's callbacks do, the invariant holds again when they are done.
  resume-Inv :
      (t : Task) (a : Answer) (s : Session V)
      → Consistent (t ∷ s.tasks) s.modal s.busy s.pending
      → Ensures Inv (resume encode page t a s)
  unfolding resume
  resume-Inv health a s c = try_connect-Inv a s c
  resume-Inv retry_timer done s c = swap retry_timer health c refl refl tt
  resume-Inv (connect_load st) a s c =
      proceed-Inv connect_load (set_busy false []) (load_stage encode page st a s)
        (load_stage-keeps (λ ts m b p. Consistent (connect_load st ∷ ts) m b p) st a s c)
        (λ s' next c'. swap (connect_load st) (connect_load next) c' refl refl tt)
        (λ s' c'.
          release (connect_load st) s'.modal c' refl refl (modal_free (connect_load st) c' refl))
  resume-Inv refresh_post done s c =
      swap refresh_post (refresh_load page.first_stage) c refl refl tt
  resume-Inv refresh_post (failed err) s c =
      swap refresh_post (refresh_load page.first_stage) c refl refl tt
  resume-Inv (refresh_load st) a s c =
      proceed-Inv refresh_load (λ s'. s') (load_stage encode page st a s)
        (load_stage-keeps (λ ts m b p. Consistent (refresh_load st ∷ ts) m b p) st a s c)
        (λ s' next c'. swap (refresh_load st) (refresh_load next) c' refl refl tt) drop_refresh
    where
      drop_refresh :
          (s : Session V) → Consistent (refresh_load st ∷ s.tasks) s.modal s.busy s.pending → Inv s
      drop_refresh s c = record {
        held = omega (arith, c.held);
        operated = omega (arith, c.operated);
        belongs = c.belongs.1;
        quiet = c.quiet;
      }
  resume-Inv (assets pkg action) (auto asset) s c =
      begin_package_action-Inv encode pkg action asset s (others_free (assets pkg action) c refl)
  resume-Inv (assets pkg action) (candidates []) s c =
      release (assets pkg action) _ c refl refl refl
  resume-Inv (assets pkg action) (candidates (b ∷ bs)) s c =
      opened (modal_free (assets pkg action) c refl)
    where
      opened :
          holds_modal s.modal ≡ 0
          → Consistent s.tasks (some (choose pkg action (b ∷ bs))) s.busy s.pending
      opened k = record {
        held = omega (arith, c.held);
        operated = omega (arith, c.operated);
        belongs = c.belongs.1;
        quiet = λ e. cc;
      }
  resume-Inv (assets pkg action) (failed err) s c = release (assets pkg action) _ c refl refl refl
  resume-Inv (post pkg action path) (accepted operation_id) s c =
      begin_poll-Inv pkg action operation_id path s c
  resume-Inv (post pkg action path) (failed err) s c =
      finish-Consistent (post pkg action path) _ c refl refl refl
  resume-Inv (poll_timer op attempt) done s c =
      try_poll-Inv (poll_timer op attempt) op attempt false s refl refl c.belongs.0 c
  resume-Inv (wait_op op attempt) done s c =
      try_poll-Inv (wait_op op attempt) op attempt true s refl refl c.belongs.0 c
  resume-Inv (wait_op op attempt) (failed err) s c =
      finish-Consistent (wait_op op attempt) _ c refl refl refl
  resume-Inv (poll_load op attempt confirmed st) a s c =
      proceed-Inv (poll_load op attempt confirmed) (poll_round encode page op attempt confirmed)
        (load_stage encode page st a s)
        (load_stage-keeps (λ ts m b p. Consistent (poll_load op attempt confirmed st ∷ ts) m b p) st
          a s c)
        (λ s' next c'.
          swap (poll_load op attempt confirmed st) (poll_load op attempt confirmed next) c' refl
            refl c'.belongs.0)
        (λ s' c'. poll_round-Inv op attempt confirmed st s' c')
  resume-Inv _ _ s c = tt

  pub settle_task-Inv :
      (n : ℕ) (o : Option Task) (a : Answer) (s : Session V)
      → get_elem? s.tasks n ≡ o
      → Inv s
      → Inv (settle_task encode page n o a s)
  unfolding settle_task
  settle_task-Inv n none a s e v = v
  settle_task-Inv n (some t) a s e v =
      kept _ (resume-Inv t a (record s { tasks = remove_at n s.tasks }) (take_out n e v))
    where
      kept : (o : Option (Session V)) → Ensures Inv o → Inv (elim o [ none ↦ s | some s' ↦ s' ])
      kept none h = v
      kept (some s') h = h
