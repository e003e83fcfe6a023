-- ===== src/Session/Quiet.antt =====
-- The busy flag and the pending operation of a page (frontend/kindle/pages/search/script.js).
use zen_pm.Prelude.{◌≤◌, ◌≡◌, refl, List, [], Option, none, some, Bool, true, false, Text, arith}
use zen_pm.Session.Page.{Page}
use zen_pm.Session.{PendingOp, Session, Event}
use zen_pm.Session.Events.{run, init}
use zen_pm.Session.Invariant.{operates, total, bit, is_some, Inv, init-Inv, operates-le-holds}
use zen_pm.Session.Reachable.{run-Inv}

module _ {V : Type 0} (encode : Text → Text) (page : Page V) where
  -- With nothing in flight and no box open the page is not busy and no operation is pending,
  -- whatever has happened since it was opened.
  pub run_quiescent :
      (message : Option Text) (own : V) (events : List Event)
      → let s = run encode page (init message own) events in
        s.tasks ≡ [] → s.modal ≡ none → (s.busy ≡ false) × (s.pending ≡ none)
  run_quiescent message own events e m =
      conclude (run encode page (init message own) events)
        (run-Inv encode page (init message own) events (init-Inv message own)) e m
    where
      not_busy : (b : Bool) → 0 ≡ bit b → b ≡ false
      not_busy true h = absurd (omega arith)
      not_busy false h = refl

      no_op : (p : Option PendingOp) → 0 ≡ is_some p → p ≡ none
      no_op none h = refl
      no_op (some op) h = absurd (omega arith)

      conclude :
          (s : Session V)
          → Inv s
          → s.tasks ≡ []
          → s.modal ≡ none
          → (s.busy ≡ false) × (s.pending ≡ none)
      conclude s v e m =
          (not_busy s.busy (rw (e, m) at v.held), no_op s.pending (rw e at v.operated))

  -- At most one package operation is under way at any time, and while it is the page is busy.
  pub run_one_operation :
      (message : Option Text) (own : V) (events : List Event)
      → let s = run encode page (init message own) events in
        (total operates s.tasks ≤ 1) × (total operates s.tasks ≡ 1 → s.busy ≡ true)
  run_one_operation message own events =
      conclude (run encode page (init message own) events)
        (run-Inv encode page (init message own) events (init-Inv message own))
    where
      at_most_one : (p : Option PendingOp) → is_some p ≤ 1
      at_most_one none = omega arith
      at_most_one (some op) = omega arith

      held_busy : (b : Bool) → 1 ≤ bit b → b ≡ true
      held_busy true h = refl
      held_busy false h = absurd (omega arith)

      conclude :
          (s : Session V)
          → Inv s
          → (total operates s.tasks ≤ 1) × (total operates s.tasks ≡ 1 → s.busy ≡ true)
      conclude s v = (
        omega (arith, v.operated, at_most_one s.pending),
        λ e. held_busy s.busy (omega (arith, v.held, e, operates-le-holds s.tasks)),
      )
