-- ===== src/Session/Release.antt =====
-- Lemmas on the task that keeps a page busy (frontend/kindle/pages/search/script.js).
use zen_pm.Prelude.{
  ℕ, ◌+◌, ◌≡◌, refl, List, ◌∷◌, Option, none, some, Bool, true, false, Text, arith, ===_iff,
}
use zen_pm.Package.{Package}
use zen_pm.Session.{Action, PendingOp, Modal, Task, Session}
use zen_pm.Session.Actions.{begin_package_action}
use zen_pm.Session.Loop.{is_pending}
use zen_pm.Session.Invariant.{
  operates, holds, total, holds_modal, bit, is_some, IsFor, Consistent, Inv, put_back,
  operates-le-holds, All-BelongsTo,
}

pub finish-Consistent :
    {ts : List Task} {m : Option Modal} {b : Bool} {p : Option PendingOp} (t : Task)
    (m' : Option Modal)
    → Consistent (t ∷ ts) m b p
    → operates t ≡ 1
    → holds t ≡ 1
    → holds_modal m' ≡ 0
    → Consistent ts m' false none
finish-Consistent {ts} {m} {b} {p} t m' c o h k =
    let idle : total operates ts ≡ 0 = one_at_most p (total operates ts) (rw o at c.operated) in
    let free = release_total b (total holds ts) (rw h at c.held) in
    record {
      held = omega arith;
      operated = idle;
      belongs = All-BelongsTo none ts idle;
      quiet = λ _. refl;
    }
  where
    one_at_most : (p : Option PendingOp) (n : ℕ) → 1 + n ≡ is_some p → n ≡ 0
    one_at_most none n e = omega arith
    one_at_most (some op) n e = omega arith

    release_total : (b : Bool) (n : ℕ) → 1 + n + holds_modal m ≡ bit b → n ≡ 0
    release_total true n e = omega arith
    release_total false n e = omega arith

pub begin_package_action-Inv :
    {V : Type 0} (encode : Text → Text) (pkg : Package) (action : Action) (asset : Text)
    (s : Session V)
    → total holds s.tasks ≡ 0
    → Inv (begin_package_action encode pkg action asset s)
unfolding begin_package_action
begin_package_action-Inv encode pkg action asset s free =
    let idle : total operates s.tasks ≡ 0 = omega (arith, operates-le-holds s.tasks) in
    put_back _ (record {
      held = omega arith;
      operated = omega arith;
      belongs = (
        refl,
        All-BelongsTo (begin_package_action encode pkg action asset s).pending s.tasks idle,
      );
      quiet = λ e. cc;
    })

-- Only one holder: the other tasks hold nothing.
pub others_free :
    {ts : List Task} {m : Option Modal} {b : Bool} {p : Option PendingOp} (t : Task)
    → Consistent (t ∷ ts) m b p
    → holds t ≡ 1
    → total holds ts ≡ 0
others_free {ts} {m} {b} t c h = free b (total holds ts) (rw h at c.held)
  where
    free : (b : Bool) (n : ℕ) → 1 + n + holds_modal m ≡ bit b → n ≡ 0
    free true n e = omega arith
    free false n e = omega arith

-- Nor is a box open that holds the page.
pub modal_free :
    {ts : List Task} {m : Option Modal} {b : Bool} {p : Option PendingOp} (t : Task)
    → Consistent (t ∷ ts) m b p
    → holds t ≡ 1
    → holds_modal m ≡ 0
modal_free {ts} {m} {b} t c h = free b (holds_modal m) (rw h at c.held)
  where
    free : (b : Bool) (n : ℕ) → 1 + total holds ts + n ≡ bit b → n ≡ 0
    free true n e = omega arith
    free false n e = omega arith

-- `P` holds of the new state, where there is one.
abbrev pub Ensures : {V : Type 0} → (Session V → Type 0) → Option (Session V) → Type 0
Ensures P none = Unit
Ensures P (some s) = P s

pub is_pending_of_IsFor : (id : Text) (p : Option PendingOp) → IsFor id p → is_pending id p ≡ true
is_pending_of_IsFor id none h = absurd h
is_pending_of_IsFor id (some op) h = (===_iff op.id id).1 h
