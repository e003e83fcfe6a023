-- ===== src/Session/Progress.antt =====
-- How far a package operation has come (pollAfterOp of frontend/kindle/pages/search/script.js).
use zen_pm.Prelude.{
  ℕ, ◌+◌, ◌-◌, ◌*◌, ◌≤◌, ◌<◌, ◌≡◌, ◌⊎◌, refl, [], ◌∷◌, ◌++◌, Option, none, some, Bool-cases, inl,
  inr, Bool, true, false, Text, if◌then◌else◌, truthy, get_elem?, arith, leb, not, ◌&&◌,
}
use zen_pm.Package.{Package}
use zen_pm.Session.Page.{Loaded, Page, IsFinite}
use zen_pm.Session.{
  health, retry_timer, connect_load, refresh_post, refresh_load, assets, Action, PendingOp, Stage,
  Task, post, poll_timer, wait_op, poll_load, Session, Answer, accepted, done, failed, settle,
}
use zen_pm.Session.Loop.{
  resume, remove_at, proceed, loaded_into, load_stage, try_poll, poll_round, begin_poll, is_pending,
  has_succeeded, max_poll_retries,
}
use zen_pm.Session.Events.{settle_task, step}
use zen_pm.Session.Invariant.{operates, total, total-append, total-remove_at}

-- How many of its tasks an operation may have ahead, this one included, where a request of a load
-- is worth `weight`.
abbrev pub rank : (Stage → ℕ) → Task → ℕ
rank weight (post pkg action path) = 127
rank weight (poll_timer op attempt) = 6 * (20 - attempt) + 6
rank weight (wait_op op attempt) = 6 * (20 - attempt) + 5
rank weight (poll_load op attempt confirmed st) = 6 * (21 - attempt) + 1 + weight st
rank weight _ = 0

rank-le : (weight : Stage → ℕ) → ((st : Stage) → weight st ≤ 3) → (t : Task) → rank weight t ≤ 130
rank-le weight low health = omega arith
rank-le weight low retry_timer = omega arith
rank-le weight low (connect_load _) = omega arith
rank-le weight low refresh_post = omega arith
rank-le weight low (refresh_load _) = omega arith
rank-le weight low (assets _ _) = omega arith
rank-le weight low (post _ _ _) = omega arith
rank-le weight low (poll_timer _ _) = omega arith
rank-le weight low (wait_op _ _) = omega arith
rank-le weight low (poll_load _ _ _ st) = omega (arith, low st)

module _ {V : Type 0} (encode : Text → Text) (page : Page V) (fin : IsFinite page) where
  finish_rank :
      (s : Session V) (t : Task)
      → 1 ≤ rank fin.weight t
      → total (rank fin.weight) s.tasks < total (rank fin.weight) s.tasks + rank fin.weight t
  finish_rank s t h = omega arith

  -- A task in place of one of higher rank.
  add_task_rank :
      (s : Session V) (t u : Task)
      → rank fin.weight u < rank fin.weight t
      → total (rank fin.weight) (s.tasks ++ u ∷ [])
        < total (rank fin.weight) s.tasks + rank fin.weight t
  add_task_rank s t u h = omega (arith, total-append (rank fin.weight) s.tasks u)

  try_poll-rank :
      (op : PendingOp) (attempt : ℕ) (confirmed : Bool) (s : Session V) (t : Task)
      → 6 * (20 - attempt) + (if confirmed then 4 else 5) < rank fin.weight t
      → total (rank fin.weight) (try_poll encode page op attempt confirmed s).tasks
        < total (rank fin.weight) s.tasks + rank fin.weight t
  unfolding try_poll
  try_poll-rank op attempt true s t h = elim (Bool-cases (truthy op.operation_id && false)) [
    | inl wait ↦ absurd (never (truthy op.operation_id) wait)
    | inr load ↦ rw load (
        add_task_rank s t (poll_load op (attempt + 1) true page.first_stage)
          (omega (arith, fin.low page.first_stage)))
  ]
    where
      never : (b : Bool) → (b && false) ≡ true → ⊥
      never true e = cc
      never false e = cc
  try_poll-rank op attempt false s t h = elim (Bool-cases (truthy op.operation_id && true)) [
    | inl wait ↦ rw wait (add_task_rank s t (wait_op op attempt) h)
    | inr load ↦ rw load (
        add_task_rank s t (poll_load op (attempt + 1) false page.first_stage)
          (omega (arith, fin.low page.first_stage)))
  ]

  poll_round-rank :
      (op : PendingOp) (attempt : ℕ) (confirmed : Bool) (st : Stage) (s : Session V)
      → total (rank fin.weight) (poll_round encode page op attempt confirmed s).tasks
        < total (rank fin.weight) s.tasks + rank fin.weight (poll_load op attempt confirmed st)
  unfolding poll_round max_poll_retries
  poll_round-rank op attempt confirmed st s = elim (Bool-cases (not (is_pending op.id s.pending))) [
    | inl gone ↦ rw gone (finish_rank s (poll_load op attempt confirmed st) (omega arith))
    | inr here ↦ elim (Bool-cases (has_succeeded confirmed op (page.current op.id s.own))) [
      | inl finished ↦
          rw (here, finished) (finish_rank s (poll_load op attempt confirmed st) (omega arith))
      | inr unseen ↦ elim (Bool-cases (leb max_poll_retries attempt)) [
        | inl last ↦
            rw (here, unseen, last)
              (finish_rank s (poll_load op attempt confirmed st) (omega arith))
        | inr more ↦
            rw (here, unseen, more)
              (add_task_rank s (poll_load op attempt confirmed st) (poll_timer op attempt)
                (below more))
      ]
    ]
  ]
    where
      below :
          leb 20 attempt ≡ false → 6 * (20 - attempt) + 6 < 6 * (21 - attempt) + 1 + fin.weight st
      below h = ground arith

  begin_poll-rank :
      (pkg : Package) (action : Action) (operation_id request : Text) (s : Session V)
      → total (rank fin.weight) (begin_poll encode page pkg action operation_id s).tasks
        < total (rank fin.weight) s.tasks + rank fin.weight (post pkg action request)
  unfolding begin_poll
  begin_poll-rank pkg action operation_id request s = by_pending s.pending
    where
      by_pending :
          (p : Option PendingOp)
          → total
              (rank fin.weight)
              (begin_poll encode page pkg action operation_id (record s { pending = p })).tasks
            < total (rank fin.weight) s.tasks + rank fin.weight (post pkg action request)
      by_pending none = finish_rank s (post pkg action request) (omega arith)
      by_pending (some op) =
          let op' : PendingOp = record op { operation_id = operation_id } in
          add_task_rank s (post pkg action request) (poll_timer op' 0) (omega arith)

  abbrev Lowered : ℕ → Option (Session V) → Type 0
  Lowered bound none = Unit
  Lowered bound (some s) = total (rank fin.weight) s.tasks < bound

  -- One request of a poll's load: the next one is worth less, and the round that follows the last
  -- lowers the sum too.
  polled-Lowered :
      (op : PendingOp) (attempt : ℕ) (confirmed : Bool) (st : Stage) (s : Session V) (a : Answer)
      → Lowered
          (total (rank fin.weight) s.tasks + rank fin.weight (poll_load op attempt confirmed st))
          (resume encode page (poll_load op attempt confirmed st) a s)
  unfolding resume load_stage
  polled-Lowered op attempt confirmed st s a = arrived (page.load st a s.hint s.own) refl
    where
      arrived :
          (o : Option (Loaded V))
          → page.load st a s.hint s.own ≡ o
          → Lowered
              (total (rank fin.weight) s.tasks
                + rank fin.weight (poll_load op attempt confirmed st))
              (proceed
                (poll_load op attempt confirmed)
                (poll_round encode page op attempt confirmed)
                (loaded_into encode page s o))
      arrived none e = tt
      arrived (some l) e = ended l.next refl
        where
          s' : Session V
          s' = record s { own = l.own; hint = l.hint }

          ended :
              (next : Option Stage)
              → l.next ≡ next
              → Lowered
                  (total (rank fin.weight) s.tasks
                    + rank fin.weight (poll_load op attempt confirmed st))
                  (proceed
                    (poll_load op attempt confirmed)
                    (poll_round encode page op attempt confirmed)
                    (some (s', next)))
          ended none k = poll_round-rank op attempt confirmed st s'
          ended (some st') k =
              add_task_rank s' (poll_load op attempt confirmed st)
                (poll_load op attempt confirmed st')
                (omega (arith, fin.falls st a s.hint s.own l st' e k))

  resume-Lowered :
      (t : Task) (a : Answer) (s : Session V)
      → operates t ≡ 1
      → Lowered (total (rank fin.weight) s.tasks + rank fin.weight t) (resume encode page t a s)
  unfolding resume
  resume-Lowered (post pkg action request) (accepted operation_id) s o =
      begin_poll-rank pkg action operation_id request s
  resume-Lowered (post pkg action request) (failed err) s o =
      finish_rank s (post pkg action request) (omega arith)
  resume-Lowered (poll_timer op attempt) done s o =
      try_poll-rank op attempt false s (poll_timer op attempt) (omega arith)
  resume-Lowered (wait_op op attempt) done s o =
      try_poll-rank op attempt true s (wait_op op attempt) (omega arith)
  resume-Lowered (wait_op op attempt) (failed err) s o =
      finish_rank s (wait_op op attempt) (omega arith)
  resume-Lowered (poll_load op attempt confirmed st) a s o =
      polled-Lowered op attempt confirmed st s a
  resume-Lowered (post pkg action request) _ s o = tt
  resume-Lowered (poll_timer op attempt) _ s o = tt
  resume-Lowered (wait_op op attempt) _ s o = tt
  resume-Lowered _ a s o = absurd (omega arith)

  -- On a page each of whose loads is four requests at most (IsFinite), the rank of a task of a package
  -- operation is 130 at most; and each time such a task settles in a way that it can, the sum of the ranks of the
  -- tasks becomes smaller, however the daemon answers.
  pub settle-rank :
      (n : ℕ) (a : Answer) (s : Session V) {t : Task}
      → get_elem? s.tasks n ≡ some t
      → operates t ≡ 1
      → (rank fin.weight t ≤ 130)
        × ((resume encode page t a (record s { tasks = remove_at n s.tasks }) ≡ none)
            ⊎ (total (rank fin.weight) (step encode page s (settle n a)).tasks
                < total (rank fin.weight) s.tasks))
  unfolding step settle_task
  settle-rank n a s {t} e o = (
    rank-le fin.weight fin.low t,
    rw e (settled _ (resume-Lowered t a (record s { tasks = remove_at n s.tasks }) o)),
  )
    where
      settled :
          (r : Option (Session V))
          → Lowered (total (rank fin.weight) (remove_at n s.tasks) + rank fin.weight t) r
          → (r ≡ none)
            ⊎ (total
                  (rank fin.weight)
                  (elim r as (λ _. Session V) [ none ↦ s | some s' ↦ s' ]).tasks
                < total (rank fin.weight) s.tasks)
      settled none h = inl refl
      settled (some s') h = inr (omega (arith, h, total-remove_at (rank fin.weight) n s.tasks e))
