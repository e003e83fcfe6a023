-- ===== src/Session/Invariant.antt =====
-- What holds between two events: who keeps the page busy, and which operation is pending.
use zen_pm.Prelude.{
  ℕ, zero, suc, ◌+◌, ◌≤◌, ◌≡◌, refl, List, [], ◌∷◌, ◌++◌, Option, none, some, Bool, true, false,
  Text, get_elem?, All, arith,
}
use zen_pm.Session.{
  PendingOp, Modal, modify, confirm, choose, Task, health, retry_timer, connect_load, refresh_post,
  refresh_load, assets, post, poll_timer, wait_op, poll_load, Session,
}
use zen_pm.Session.Loop.{remove_at}
use zen_pm.Session.Events.{init}

-- 1 for a task of a package operation that the daemon has been asked for.
abbrev pub operates : Task → ℕ
operates (post pkg action path) = 1
operates (poll_timer op attempt) = 1
operates (wait_op op attempt) = 1
operates (poll_load op attempt confirmed st) = 1
operates _ = 0

-- 1 for a task that keeps the page busy: those, the connection, and the search for a build.
abbrev pub holds : Task → ℕ
holds refresh_post = 0
holds (refresh_load st) = 0
holds _ = 1

abbrev pub total : {A : Type 0} → (A → ℕ) → List A → ℕ
total f [] = 0
total f (t ∷ ts) = f t + total f ts

-- 1 for the box that asks for a build, which keeps the page busy too.
abbrev pub holds_modal : Option Modal → ℕ
holds_modal (some (choose pkg action builds)) = 1
holds_modal _ = 0

-- Whether the box starts an action by one of its buttons.
abbrev pub asks : Option Modal → Bool
asks (some (modify pkg)) = true
asks (some (confirm pkg action)) = true
asks _ = false

abbrev pub bit : Bool → ℕ
bit true = 1
bit false = 0

abbrev pub is_some : {A : Type 0} → Option A → ℕ
is_some none = 0
is_some (some a) = 1

-- The operation that is pending is for the package `id`.
abbrev pub IsFor : Text → Option PendingOp → Type 0
IsFor id none = ⊥
IsFor id (some op) = op.id ≡ id

-- A task that operates is for the package whose operation is pending.
abbrev pub BelongsTo : Option PendingOp → Task → Type 0
BelongsTo p (post pkg action path) = IsFor pkg.id p
BelongsTo p (poll_timer op attempt) = IsFor op.id p
BelongsTo p (wait_op op attempt) = IsFor op.id p
BelongsTo p (poll_load op attempt confirmed st) = IsFor op.id p
BelongsTo p _ = Unit

-- The page is busy exactly while one task, or the box that asks for a build, keeps it so; an
-- operation is pending exactly while one task operates, and that task belongs to it; and a box that
-- could start another action is open only while the page is not busy.
pub record Consistent (tasks : List Task) (modal : Option Modal) (busy : Bool)
    (pending : Option PendingOp) : Type 0 where
  pub held : total holds tasks + holds_modal modal ≡ bit busy
  pub operated : total operates tasks ≡ is_some pending
  pub belongs : All (BelongsTo pending) tasks
  pub quiet : asks modal ≡ true → busy ≡ false

abbrev pub Inv : {V : Type 0} → Session V → Type 0
Inv s = Consistent s.tasks s.modal s.busy s.pending

pub total-append :
    {A : Type 0} (f : A → ℕ) (ts : List A) (t : A) → total f (ts ++ t ∷ []) ≡ total f ts + f t
total-append f [] t = omega arith
total-append f (u ∷ ts) t = omega (arith, total-append f ts t)

pub total-remove_at :
    {A : Type 0} (f : A → ℕ) (n : ℕ) (ts : List A) {t : A}
    → get_elem? ts n ≡ some t
    → total f (remove_at n ts) + f t ≡ total f ts
total-remove_at f n [] e = cc
total-remove_at f zero (u ∷ ts) {t} e = let same : u ≡ t = cc in rw same (omega arith)
total-remove_at f (suc n) (u ∷ ts) e = omega (arith, total-remove_at f n ts e)

pub operates-le-holds : (ts : List Task) → total operates ts ≤ total holds ts
operates-le-holds [] = omega arith
operates-le-holds (t ∷ ts) = omega (arith, le_one t, operates-le-holds ts)
  where
    le_one : (u : Task) → operates u ≤ holds u
    le_one health = omega arith
    le_one retry_timer = omega arith
    le_one (connect_load _) = omega arith
    le_one refresh_post = omega arith
    le_one (refresh_load _) = omega arith
    le_one (assets _ _) = omega arith
    le_one (post _ _ _) = omega arith
    le_one (poll_timer _ _) = omega arith
    le_one (wait_op _ _) = omega arith
    le_one (poll_load _ _ _ _) = omega arith

pub BelongsTo-idle : (p : Option PendingOp) (t : Task) → operates t ≡ 0 → BelongsTo p t
BelongsTo-idle p (post pkg action path) h = absurd (omega arith)
BelongsTo-idle p (poll_timer o attempt) h = absurd (omega arith)
BelongsTo-idle p (wait_op o attempt) h = absurd (omega arith)
BelongsTo-idle p (poll_load o attempt confirmed st) h = absurd (omega arith)
BelongsTo-idle p _ h = tt

-- Tasks that do not operate belong to whatever is pending.
pub All-BelongsTo :
    (p : Option PendingOp) (ts : List Task) → total operates ts ≡ 0 → All (BelongsTo p) ts
All-BelongsTo p [] h = tt
All-BelongsTo p (t ∷ ts) h = (BelongsTo-idle p t (omega arith), All-BelongsTo p ts (omega arith))

pub All-append_one :
    (P : Task → Type 0) (ts : List Task) (t : Task) → All P ts → P t → All P (ts ++ t ∷ [])
All-append_one P [] t h k = (k, tt)
All-append_one P (u ∷ ts) t (q, h) k = (q, All-append_one P ts t h k)

pub All-remove_at : (P : Task → Type 0) (n : ℕ) (ts : List Task) → All P ts → All P (remove_at n ts)
All-remove_at P n [] h = tt
All-remove_at P zero (t ∷ ts) (q, h) = h
All-remove_at P (suc n) (t ∷ ts) (q, h) = (q, All-remove_at P n ts h)

pub All-get_elem? :
    (P : Task → Type 0) (n : ℕ) (ts : List Task) {t : Task}
    → get_elem? ts n ≡ some t
    → All P ts
    → P t
All-get_elem? P n [] e h = cc
All-get_elem? P zero (u ∷ ts) {t} e (q, h) = let same : u ≡ t = cc in rw same at q
All-get_elem? P (suc n) (u ∷ ts) e (q, h) = All-get_elem? P n ts e h

module _ {ts : List Task} {m : Option Modal} {b : Bool} {p : Option PendingOp} where
  -- The order of the tasks does not matter.
  pub take_out :
      (n : ℕ) {t : Task}
      → get_elem? ts n ≡ some t
      → Consistent ts m b p
      → Consistent (t ∷ remove_at n ts) m b p
  take_out n {t} e c = record {
    held = omega (arith, total-remove_at holds n ts e, c.held);
    operated = omega (arith, total-remove_at operates n ts e, c.operated);
    belongs =
        (All-get_elem? (BelongsTo p) n ts e c.belongs, All-remove_at (BelongsTo p) n ts c.belongs);
    quiet = c.quiet;
  }

  pub put_back : (t : Task) → Consistent (t ∷ ts) m b p → Consistent (ts ++ t ∷ []) m b p
  put_back t c = record {
    held = omega (arith, total-append holds ts t, c.held);
    operated = omega (arith, total-append operates ts t, c.operated);
    belongs = All-append_one (BelongsTo p) ts t c.belongs.1 c.belongs.0;
    quiet = c.quiet;
  }

  -- One task takes the place of another of its kind.
  pub swap :
      (t u : Task)
      → Consistent (t ∷ ts) m b p
      → holds u ≡ holds t
      → operates u ≡ operates t
      → BelongsTo p u
      → Consistent (ts ++ u ∷ []) m b p
  swap t u c h o w = put_back u (record {
    held = omega (arith, c.held, h);
    operated = omega (arith, c.operated, o);
    belongs = (w, c.belongs.1);
    quiet = c.quiet;
  })

  -- A task that settles for good, and no operation with it, frees the page.
  pub release :
      (t : Task) (m' : Option Modal)
      → Consistent (t ∷ ts) m b p
      → holds t ≡ 1
      → operates t ≡ 0
      → holds_modal m' ≡ 0
      → Consistent ts m' false p
  release t m' c h o k = record {
    held = omega (arith, only_holder b (total holds ts) (rw h at c.held));
    operated = omega (arith, c.operated);
    belongs = c.belongs.1;
    quiet = λ _. refl;
  }
    where
      only_holder : (b : Bool) (n : ℕ) → 1 + n + holds_modal m ≡ bit b → n ≡ 0
      only_holder true n e = omega arith
      only_holder false n e = omega arith

pub init-Inv : {V : Type 0} (message : Option Text) (own : V) → Inv (init message own)
unfolding init
init-Inv none own = ground arith
init-Inv (some message) own = ground arith
