-- ===== src/Sources/Rows.antt =====
-- The rows of the page "Sources" (frontend/kindle/pages/sources/sources.js) and where they lead.
use zen_pm.Prelude.{
  List, [], ◌∷◌, map, Option, none, some, Bool, true, false, not, Text, All, get_elem?,
  if◌then◌else◌,
}
use zen_pm.Json.{Json}
use zen_pm.Repos.{Repo}
use zen_pm.Session.Loop.{remove_at}
use zen_pm.Sources.{value, error}
use zen_pm.Sources.Page.{
  Row, SourceList, rows, SourceTask, adding, load_repos, delete_repo, refresh_repos, SourceAnswer,
  repos, done, failed, SourcesPage, SourceEvent, open_box, close_box, confirm_add, refresh_menu,
  type_url, remove_row, settle, Advance, goes_on, ends, render_row, render_repos, begin_add,
  advance, load_list, advanced, resume, settle_task, step, run,
}

abbrev pub AllRows : (Row → Type 0) → SourceList → Type 0
AllRows P (rows r rs) = P r × All P rs
AllRows P _ = Unit

abbrev AllIn : (Row → Type 0) → Option SourcesPage → Type 0
AllIn P none = Unit
AllIn P (some s) = AllRows P s.list

module _ (P : Row → Type 0) where
  advanced-AllRows :
      (n : Advance) (s : SourcesPage) → AllRows P s.list → AllRows P (advanced n s).list
  unfolding advanced load_list
  advanced-AllRows (goes_on t b) s h = h
  advanced-AllRows (ends b false) s h = h
  advanced-AllRows (ends b true) s h = tt

  either-AllRows :
      (c : Bool) (x y : SourcesPage)
      → AllRows P x.list
      → AllRows P y.list
      → AllRows P (if c then x else y).list
  either-AllRows true x y h k = h
  either-AllRows false x y h k = k

  module _ (parse : Text → Option Json) (thrown : Text) (show : Json → Text) (encode : Text → Text)
      (path : Text) where
    -- What an answer has to satisfy for the rows that are made of it.
    abbrev pub Gives : SourceAnswer → Type 0
    Gives (repos (value list)) = All (λ r. P (render_row encode path r)) list
    Gives _ = Unit

    abbrev pub GivesRows : SourceEvent → Type 0
    GivesRows (settle n a) = Gives a
    GivesRows _ = Unit

    render_repos-AllRows :
        (list : List Repo)
        → All (λ r. P (render_row encode path r)) list
        → AllRows P (render_repos encode path list)
    unfolding render_repos
    render_repos-AllRows [] h = tt
    render_repos-AllRows (r ∷ rs) (p, h) = (p, mapped rs h)
      where
        mapped :
            (rs : List Repo)
            → All (λ r. P (render_row encode path r)) rs
            → All P (map (render_row encode path) rs)
        mapped [] h = tt
        mapped (r ∷ rs) (p, h) = (p, mapped rs h)

    resume-AllRows :
        (t : SourceTask) (a : SourceAnswer) (s : SourcesPage)
        → Gives a
        → AllRows P s.list
        → AllIn P (resume parse thrown show encode path t a s)
    unfolding resume load_list
    resume-AllRows (adding t) a s g h = by_advance (advance parse thrown show t a s.box)
      where
        by_advance :
            (o : Option Advance)
            → AllIn P
                (elim o as (λ _. Option SourcesPage) [ none ↦ none | some n ↦ some (advanced n s) ])
        by_advance none = tt
        by_advance (some n) = advanced-AllRows n s h
    resume-AllRows load_repos (repos (value list)) s g h = render_repos-AllRows list g
    resume-AllRows load_repos (repos (error message)) s g h = tt
    resume-AllRows (delete_repo name) done s g h = tt
    resume-AllRows (delete_repo name) failed s g h = h
    resume-AllRows refresh_repos done s g h = tt
    resume-AllRows refresh_repos failed s g h = tt
    resume-AllRows _ a s g h = tt

    step-AllRows :
        (s : SourcesPage) (e : SourceEvent)
        → GivesRows e
        → AllRows P s.list
        → AllRows P (step parse thrown show encode path s e).list
    unfolding step settle_task
    step-AllRows s open_box g h = h
    step-AllRows s close_box g h = h
    step-AllRows s (type_url text) g h = either-AllRows s.box.shown _ _ h h
    step-AllRows s confirm_add g h =
        either-AllRows (not s.box.shown) _ _ h
          (either-AllRows s.box.disabled _ _ h (advanced-AllRows (begin_add s.box) s h))
    step-AllRows s refresh_menu g h = h
    step-AllRows s (remove_row name) g h = h
    step-AllRows s (settle n a) g h = by_task (get_elem? s.tasks n)
      where
        settled :
            (o : Option SourcesPage)
            → AllIn P o
            → AllRows P (elim o as (λ _. SourcesPage) [ none ↦ s | some s' ↦ s' ]).list
        settled none k = h
        settled (some s') k = k

        by_task :
            (o : Option SourceTask)
            → AllRows P (settle_task parse thrown show encode path n o a s).list
        by_task none = h
        by_task (some t) =
            settled _ (resume-AllRows t a (record s { tasks = remove_at n s.tasks }) g h)

    pub run-AllRows :
        (s : SourcesPage) (events : List SourceEvent)
        → All GivesRows events
        → AllRows P s.list
        → AllRows P (run parse thrown show encode path s events).list
    unfolding run
    run-AllRows s [] g h = h
    run-AllRows s (e ∷ events) (k, g) h =
        run-AllRows (step parse thrown show encode path s e) events g (step-AllRows s e k h)
