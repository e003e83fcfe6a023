-- ===== src/Sources/Settled.antt =====
-- What holds on the page "Sources" between two events (frontend/kindle/pages/sources/sources.js).
use zen_pm.Prelude.{
  ℕ, ◌≤◌, ◌≡◌, refl, List, [], ◌∷◌, Option, none, some, Bool, true, false, not, Text, get_elem?,
  if◌then◌else◌, truthy, arith,
}
use zen_pm.Strings.{trim}
use zen_pm.Json.{Json}
use zen_pm.Repos.{Repo}
use zen_pm.Session.Loop.{remove_at}
use zen_pm.Session.Invariant.{total, total-append, total-remove_at}
use zen_pm.Sources.{Result, value, error, AddBox, hide_add_modal, refused, added, naming}
use zen_pm.Sources.Frees.{Frees, either-Frees, WillFree, advance-Frees}
use zen_pm.Sources.Page.{
  SourceList, loading, SourceTask, adding, load_repos, delete_repo, refresh_repos, SourceAnswer,
  repos, done, failed, SourcesPage, SourceEvent, open_box, close_box, confirm_add, refresh_menu,
  type_url, remove_row, settle, Advance, goes_on, ends, render_repos, begin_add, advance, load_list,
  advanced, resume, settle_task, step, run, open_sources,
}

-- 1 for a request of `addSource`, and for one that loads the list.
abbrev pub adds : SourceTask → ℕ
adds (adding t) = 1
adds _ = 0

abbrev pub loads : SourceTask → ℕ
loads load_repos = 1
loads _ = 0

-- The button is disabled only while a source is being added, and the list says that it is loading
-- only while it is.
abbrev pub Waits : AddBox → SourceList → List SourceTask → Type 0
Waits b l ts = (b.disabled ≡ true → 1 ≤ total adds ts) × (l ≡ loading → 1 ≤ total loads ts)

abbrev pub IsWaiting : SourcesPage → Type 0
IsWaiting s = Waits s.box s.list s.tasks

abbrev Ensures : Option SourcesPage → Type 0
Ensures none = Unit
Ensures (some s) = IsWaiting s

-- `t` has just settled.
abbrev WaitsWith : SourceTask → SourcesPage → Type 0
WaitsWith t s = Waits s.box s.list (t ∷ s.tasks)

load_list-IsWaiting :
    (s : SourcesPage) → (s.box.disabled ≡ true → 1 ≤ total adds s.tasks) → IsWaiting (load_list s)
unfolding load_list
load_list-IsWaiting s d = (
  λ e. omega (arith, d e, total-append adds s.tasks load_repos),
  λ e. omega (arith, total-append loads s.tasks load_repos),
)

advanced-IsWaiting :
    (n : Advance) (s : SourcesPage)
    → Frees n
    → (s.list ≡ loading → 1 ≤ total loads s.tasks)
    → IsWaiting (advanced n s)
unfolding advanced
advanced-IsWaiting (goes_on t b) s f l = (
  λ e. omega (arith, total-append adds s.tasks (adding t)),
  λ e. omega (arith, l e, total-append loads s.tasks (adding t)),
)
advanced-IsWaiting (ends b false) s f l = ((λ e. cc), l)
advanced-IsWaiting (ends b true) s f l = load_list-IsWaiting (record s { box = b }) (λ e. cc)

begin_add-Frees : (b : AddBox) → b.disabled ≡ false → Frees (begin_add b)
unfolding begin_add
begin_add-Frees b d = either-Frees (not (truthy (trim b.input))) _ _ d tt

render_repos-ne-loading :
    (encode : Text → Text) (path : Text) (list : List Repo)
    → render_repos encode path list ≡ loading
    → ⊥
unfolding render_repos
render_repos-ne-loading encode path [] e = cc
render_repos-ne-loading encode path (r ∷ rs) e = cc

either-IsWaiting :
    (c : Bool) (x y : SourcesPage) → IsWaiting x → IsWaiting y → IsWaiting (if c then x else y)
either-IsWaiting true x y h k = h
either-IsWaiting false x y h k = k

confirmed :
    (s : SourcesPage) (c : Bool)
    → s.box.disabled ≡ c
    → IsWaiting s
    → IsWaiting (if c then s else advanced (begin_add s.box) s)
confirmed s true e h = h
confirmed s false e (d, l) = advanced-IsWaiting (begin_add s.box) s (begin_add-Frees s.box e) l

module _ (parse : Text → Option Json) (thrown : Text) (show : Json → Text) (encode : Text → Text)
    (path : Text) where
  resume-IsWaiting :
      (t : SourceTask) (a : SourceAnswer) (s : SourcesPage)
      → WaitsWith t s
      → Ensures (resume parse thrown show encode path t a s)
  unfolding resume
  resume-IsWaiting (adding t) a s (d, l) =
      by_advance (advance parse thrown show t a s.box) (advance-Frees parse thrown show t a s.box)
    where
      by_advance :
          (o : Option Advance)
          → WillFree parse thrown show o
          → Ensures
              (elim o as (λ _. Option SourcesPage) [ none ↦ none | some n ↦ some (advanced n s) ])
      by_advance none f = tt
      by_advance (some n) f = advanced-IsWaiting n s f (λ e. omega (arith, l e))
  resume-IsWaiting load_repos (repos (value list)) s (d, l) =
      ((λ e. omega (arith, d e)), (λ e. absurd (render_repos-ne-loading encode path list e)))
  resume-IsWaiting load_repos (repos (error message)) s (d, l) =
      ((λ e. omega (arith, d e)), (λ e. cc))
  resume-IsWaiting (delete_repo name) done s (d, l) =
      load_list-IsWaiting s (λ e. omega (arith, d e))
  resume-IsWaiting (delete_repo name) failed s (d, l) =
      ((λ e. omega (arith, d e)), (λ e. omega (arith, l e)))
  resume-IsWaiting refresh_repos done s (d, l) = load_list-IsWaiting s (λ e. omega (arith, d e))
  resume-IsWaiting refresh_repos failed s (d, l) = load_list-IsWaiting s (λ e. omega (arith, d e))
  resume-IsWaiting _ a s h = tt

  settle_task-IsWaiting :
      (n : ℕ) (o : Option SourceTask) (a : SourceAnswer) (s : SourcesPage)
      → get_elem? s.tasks n ≡ o
      → IsWaiting s
      → IsWaiting (settle_task parse thrown show encode path n o a s)
  unfolding settle_task
  settle_task-IsWaiting n none a s e h = h
  settle_task-IsWaiting n (some t) a s e (d, l) = settled _ (
      resume-IsWaiting t a (record s { tasks = remove_at n s.tasks })
        (
          λ q. omega (arith, d q, total-remove_at adds n s.tasks e),
          λ q. omega (arith, l q, total-remove_at loads n s.tasks e),
        ))
    where
      settled :
          (o : Option SourcesPage)
          → Ensures o
          → IsWaiting (elim o as (λ _. SourcesPage) [ none ↦ s | some s' ↦ s' ])
      settled none k = (d, l)
      settled (some s') k = k

  step-IsWaiting :
      (s : SourcesPage) (e : SourceEvent)
      → IsWaiting s
      → IsWaiting (step parse thrown show encode path s e)
  unfolding step
  step-IsWaiting s open_box h = unfold zen_pm.Sources.show_add_modal in h
  step-IsWaiting s close_box (d, l) = unfold hide_add_modal in ((λ e. cc), l)
  step-IsWaiting s (type_url text) h = either-IsWaiting s.box.shown _ _ h h
  step-IsWaiting s confirm_add h =
      either-IsWaiting (not s.box.shown) _ _ h (confirmed s s.box.disabled refl h)
  step-IsWaiting s refresh_menu (d, l) = (
    λ e. omega (arith, d e, total-append adds s.tasks refresh_repos),
    λ e. omega (arith, l e, total-append loads s.tasks refresh_repos),
  )
  step-IsWaiting s (remove_row name) (d, l) = (
    λ e. omega (arith, d e, total-append adds s.tasks (delete_repo name)),
    λ e. omega (arith, l e, total-append loads s.tasks (delete_repo name)),
  )
  step-IsWaiting s (settle n a) h = settle_task-IsWaiting n (get_elem? s.tasks n) a s refl h

  run-IsWaiting :
      (s : SourcesPage) (events : List SourceEvent)
      → IsWaiting s
      → IsWaiting (run parse thrown show encode path s events)
  unfolding run
  run-IsWaiting s [] h = h
  run-IsWaiting s (e ∷ events) h =
      run-IsWaiting (step parse thrown show encode path s e) events (step-IsWaiting s e h)

  -- Whatever the user does and in whatever order the requests settle, the button of the box is
  -- disabled only while a source is being added, and the list says that it is loading only while a
  -- request for it is in flight.
  pub open_sources-IsWaiting :
      (events : List SourceEvent) → IsWaiting (open_sources parse thrown show encode path events)
  unfolding open_sources load_list
  open_sources-IsWaiting events = run-IsWaiting _ events ((λ e. cc), (λ e. omega arith))
