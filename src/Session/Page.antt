-- ===== src/Session/Page.antt =====
-- What the copies of the page differ in.
use zen_pm.Prelude.{ℕ, ◌≤◌, ◌<◌, ◌≡◌, Text, Bool, Option, some}
use zen_pm.Package.{Package}
use zen_pm.Session.{Stage, Answer}

-- What a request of a load leads to: the page's own state, the hint, and the next request, if any.
pub record Loaded (V : Type 0) : Type 0 where
  pub own : V
  pub hint : Text
  pub next : Option Stage

pub record Page (V : Type 0) : Type 0 where
  -- the first request of a load, and what each leads to, from its answer, the hint and the page's
  -- own state; `none` where it cannot settle so
  pub first_stage : Stage
  pub load : Stage → Answer → Text → V → Option (Loaded V)
  -- typing in the search box, where there is one: the page's own state and the hint that follow
  pub type_in : Text → Text → V → V × Text
  -- the package that an operation was for, by its id, after a load
  pub current : Text → V → Option Package
  pub max_retries : ℕ  -- of the connection
  pub reads_version : Bool  -- whether the answer to GET /health is looked into
  pub result_class : Text  -- of the boxes that report how an action ended
  pub offers_info : Bool

-- A load comes to its end: each request is worth less than the one before it, and none is worth
-- more than 3.
pub record IsFinite {V : Type 0} (page : Page V) : Type 0 where
  pub weight : Stage → ℕ
  pub low : (st : Stage) → weight st ≤ 3
  pub falls :
      (st : Stage) (a : Answer) (hint : Text) (own : V) (l : Loaded V) (st' : Stage)
      → page.load st a hint own ≡ some l
      → l.next ≡ some st'
      → weight st' < weight st
