-- ===== src/Sources/Progress.antt =====
-- How far the requests of the page "Sources" have come (frontend/kindle/pages/sources/sources.js).
use zen_pm.Prelude.{
  ℕ, ◌+◌, ◌≤◌, ◌<◌, ◌≡◌, ◌⊎◌, inl, inr, refl, Option, none, some, true, false, Text, get_elem?,
  arith,
}
use zen_pm.Json.{Json}
use zen_pm.Session.Loop.{remove_at}
use zen_pm.Session.Invariant.{total, total-append, total-remove_at}
use zen_pm.Sources.{Result, value, error, AddBox}
use zen_pm.Sources.Page.{
  AddTask, get_registry, get_manifest, get_fallback, post_repo, SourceTask, adding, load_repos,
  delete_repo, refresh_repos, SourceAnswer, fetched, posted, repos, done, failed, SourcesPage,
  settle, Advance, goes_on, ends, name_found, manifest_read, advance, load_list, advanced, resume,
  settle_task, step,
}

-- How many requests there may be ahead, this one included.
abbrev pub rank : SourceTask → ℕ
rank (adding (get_manifest url)) = 4
rank (adding (get_fallback url)) = 3
rank (adding (get_registry url)) = 3
rank (adding (post_repo name url)) = 2
rank (delete_repo name) = 2
rank refresh_repos = 2
rank load_repos = 1

-- What a step of the chain leads to is worth less than `bound`.
abbrev Below : ℕ → Advance → Type 0
Below bound (goes_on t b) = rank (adding t) < bound
Below bound (ends b again) = 1 < bound

abbrev Lowered : ℕ → Option SourcesPage → Type 0
Lowered bound none = Unit
Lowered bound (some s) = total rank s.tasks < bound

load_list-rank : (s : SourcesPage) → total rank (load_list s).tasks ≡ total rank s.tasks + 1
unfolding load_list
load_list-rank s = total-append rank s.tasks load_repos

advanced-rank :
    (bound : ℕ) (n : Advance) (s : SourcesPage)
    → Below bound n
    → total rank (advanced n s).tasks < bound + total rank s.tasks
unfolding advanced
advanced-rank bound (goes_on t b) s h = omega (arith, h, total-append rank s.tasks (adding t))
advanced-rank bound (ends b false) s h = omega (arith, h)
advanced-rank bound (ends b true) s h = omega (arith, h, load_list-rank (record s { box = b }))

module _ (parse : Text → Option Json) (thrown : Text) (show : Json → Text) where
  name_found-Below :
      (url : Text) (b : AddBox) (r : Result Json) → Below 3 (name_found parse thrown show url b r)
  unfolding name_found
  name_found-Below url b (value name) = omega arith
  name_found-Below url b (error message) = omega arith

  manifest_read-Below :
      (url : Text) (b : AddBox) (r : Result Json)
      → Below 4 (manifest_read parse thrown show url b r)
  unfolding manifest_read name_found
  manifest_read-Below url b (value name) = omega arith
  manifest_read-Below url b (error message) = omega arith

  abbrev WillFall : ℕ → Option Advance → Type 0
  WillFall bound none = Unit
  WillFall bound (some n) = Below bound n

  advance-Below :
      (t : AddTask) (a : SourceAnswer) (b : AddBox)
      → WillFall (rank (adding t)) (advance parse thrown show t a b)
  unfolding advance
  advance-Below (get_registry url) (fetched f) b = name_found-Below url b _
  advance-Below (get_manifest url) (fetched f) b = manifest_read-Below url b _
  advance-Below (get_fallback url) (fetched f) b = name_found-Below url b _
  advance-Below (post_repo name url) (posted r) b = omega arith
  advance-Below _ a b = tt

  module _ (encode : Text → Text) (path : Text) where
    resume-Lowered :
        (t : SourceTask) (a : SourceAnswer) (s : SourcesPage)
        → Lowered (rank t + total rank s.tasks) (resume parse thrown show encode path t a s)
    unfolding resume
    resume-Lowered (adding t) a s =
        by_advance (advance parse thrown show t a s.box) (advance-Below t a s.box)
      where
        by_advance :
            (o : Option Advance)
            → WillFall (rank (adding t)) o
            → Lowered
                (rank (adding t) + total rank s.tasks)
                (elim o as (λ _. Option SourcesPage) [ none ↦ none | some n ↦ some (advanced n s) ])
        by_advance none f = tt
        by_advance (some n) f = advanced-rank (rank (adding t)) n s f
    resume-Lowered load_repos (repos (value list)) s = omega arith
    resume-Lowered load_repos (repos (error message)) s = omega arith
    resume-Lowered (delete_repo name) done s = omega (arith, load_list-rank s)
    resume-Lowered (delete_repo name) failed s = omega arith
    resume-Lowered refresh_repos done s = omega (arith, load_list-rank s)
    resume-Lowered refresh_repos failed s = omega (arith, load_list-rank s)
    resume-Lowered _ a s = tt

    -- Each time a request of the page settles in a way that it can, the number of requests that may
    -- still be ahead becomes smaller, however it is answered; and a request has four at most ahead,
    -- itself included.
    pub settle-rank_falls :
        (n : ℕ) (a : SourceAnswer) (s : SourcesPage) {t : SourceTask}
        → get_elem? s.tasks n ≡ some t
        → (rank t ≤ 4)
          × ((resume parse thrown show encode path t a (record s { tasks = remove_at n s.tasks })
                ≡ none)
              ⊎ (total rank (step parse thrown show encode path s (settle n a)).tasks
                  < total rank s.tasks))
    unfolding step settle_task
    settle-rank_falls n a s {t} e = (
      rank_low t,
      rw e (settled _ (resume-Lowered t a (record s { tasks = remove_at n s.tasks }))),
    )
      where
        rank_low : (t : SourceTask) → rank t ≤ 4
        rank_low (adding (get_manifest url)) = omega arith
        rank_low (adding (get_fallback url)) = omega arith
        rank_low (adding (get_registry url)) = omega arith
        rank_low (adding (post_repo name url)) = omega arith
        rank_low (delete_repo name) = omega arith
        rank_low refresh_repos = omega arith
        rank_low load_repos = omega arith

        settled :
            (r : Option SourcesPage)
            → Lowered (rank t + total rank (remove_at n s.tasks)) r
            → (r ≡ none)
              ⊎ (total rank (elim r as (λ _. SourcesPage) [ none ↦ s | some s' ↦ s' ]).tasks
                  < total rank s.tasks)
        settled none h = inl refl
        settled (some s') h = inr (omega (arith, h, total-remove_at rank n s.tasks e))
