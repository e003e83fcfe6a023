-- ===== src/SourceDetails/Packages.antt =====
-- Which packages the page of a source shows (renderSourceDetails of
-- frontend/kindle/pages/source-details/script.js).
use zen_pm.Prelude.{
  ℕ, ◌<◌, ◌≤◌, ◌≡◌, ◌⊎◌, inl, inr, refl, sym, Option, none, some, List, [], map, Bool-cases, true,
  false, not, Text, ◌===◌, ===_iff, truthy, All, first-eq_some, arith,
}
use zen_pm.Repos.{Repo}
use zen_pm.Cards.Content.{without_image}
use zen_pm.Cards.Render.{render_package_card}
use zen_pm.Listing.{is_empty}
use zen_pm.Listing.Ids.{HaveDistinctIds, select-HaveDistinctIds, IsDistinct, All-select_self}
use zen_pm.Listing.Display.{Displays, reconcile_package_cards-Displays, nil-Displays}
use zen_pm.Session.{
  Stage, get_packages, get_repos, get_manifest, Answer, loaded, listed, failed, Event,
}
use zen_pm.Session.Page.{Loaded, IsFinite}
use zen_pm.Session.Events.{init}
use zen_pm.Session.Keeps.{IsKept, Arrives, Answers, Holds}
use zen_pm.Session.Kept.{run-Holds}
use zen_pm.SourceDetails.{
  SourceView, empty_source, find_source, packages_of, render_source, render_source_details,
  load_source, page, opening, open_page,
}

-- The requests that the page of a source sends.
abbrev pub OfSource : Stage → Type 0
OfSource get_packages = Unit
OfSource (get_repos none) = Unit
OfSource _ = ⊥

abbrev pub weight : Stage → ℕ
weight (get_repos none) = 1
weight _ = 0

module _ (lower : Text → Text) (path : Text) (source_name : Text) where
  -- The source is the one that the address names, where it is known.
  abbrev IsNamed : Option Repo → Type 0
  IsNamed none = Unit
  IsNamed (some r) = r.name ≡ source_name

  -- The page shows nothing, or the source's packages of those last loaded; the cards display what it
  -- shows, and the hint is hidden just while it shows something.
  pub record ShowsSource (v : SourceView) : Type 0 where
    pub named : IsNamed v.repo
    pub distinct : HaveDistinctIds v.packages
    pub displays : Displays lower path v.visible v.cards v.fresh
    pub chosen : (v.visible ≡ []) ⊎ (v.visible ≡ packages_of source_name v.packages)
    pub hidden : v.hint_hidden ≡ not (is_empty v.visible)

  nothing-ShowsSource :
      (v : SourceView)
      → IsNamed v.repo
      → HaveDistinctIds v.packages
      → ShowsSource (record v { hint_hidden = false; visible = []; cards = [] })
  nothing-ShowsSource v n d = record {
    named = n;
    distinct = d;
    displays = nil-Displays lower path v.fresh;
    chosen = inl refl;
    hidden = refl;
  }

  render_source-ShowsSource :
      (repo : Option Repo) (v : SourceView)
      → v.repo ≡ repo
      → IsNamed repo
      → HaveDistinctIds v.packages
      → ShowsSource (render_source lower path source_name repo v).0
  unfolding render_source
  render_source-ShowsSource none v e n d = nothing-ShowsSource v (rw e tt) d
  render_source-ShowsSource (some repo) v e n d =
      let tidy = nil-Displays lower path v.fresh in
      record {
        named = rw e n;
        distinct = d;
        displays =
            reconcile_package_cards-Displays lower path (packages_of repo.name v.packages) []
              v.fresh (select-HaveDistinctIds (λ p. p.repo === repo.name) v.packages d) tidy.tidy
              tt;
        chosen = inr (rw n refl);
        hidden = refl;
      }

  render_source_details-ShowsSource :
      (v : SourceView)
      → IsNamed v.repo
      → HaveDistinctIds v.packages
      → ShowsSource (render_source_details lower path source_name v).0
  unfolding render_source_details
  render_source_details-ShowsSource v n d = elim (Bool-cases (not (truthy source_name))) [
    | inl nameless ↦ rw nameless (nothing-ShowsSource v n d)
    | inr has_name ↦ rw has_name (render_source-ShowsSource v.repo v refl n d)
  ]

  find_source-IsNamed :
      (o : Option Repo) (repos : List Repo) → find_source source_name repos ≡ o → IsNamed o
  find_source-IsNamed none repos e = tt
  find_source-IsNamed (some r) repos e =
      (===_iff r.name source_name).0 (first-eq_some (λ r. r.name === source_name) repos e)

  load_source-ShowsSource :
      (st : Stage) (a : Answer) (hint : Text) (v : SourceView)
      → OfSource st
      → IsDistinct a
      → ShowsSource v
      → Arrives ShowsSource OfSource (load_source lower path source_name st a hint v)
  unfolding load_source
  load_source-ShowsSource (get_repos none) (listed repos) hint v q d s = (
    record {
      named = find_source-IsNamed (find_source source_name repos) repos refl;
      distinct = s.distinct;
      displays = s.displays;
      chosen = s.chosen;
      hidden = s.hidden;
    },
    tt,
  )
  load_source-ShowsSource (get_repos none) (failed err) hint v q d s = (s, tt)
  load_source-ShowsSource get_packages (loaded packages) hint v q d s =
      (render_source_details-ShowsSource (record v { packages = packages }) s.named d, tt)
  load_source-ShowsSource get_packages (failed err) hint v q d s = (s, tt)
  load_source-ShowsSource _ a hint v q d s = tt

  page-IsKept : IsKept (page lower path source_name) ShowsSource OfSource IsDistinct
  unfolding page
  page-IsKept = record { first = tt; loads = load_source-ShowsSource; types = λ text hint v s. s }

  init-Holds : (message : Option Text) → Holds ShowsSource OfSource (init message empty_source)
  unfolding init empty_source
  init-Holds none = (nothing-ShowsSource empty_source tt tt, (tt, tt))
  init-Holds (some message) = (nothing-ShowsSource empty_source tt tt, tt)

  -- As long as the daemon lists packages with distinct ids, after any events the page of a source
  -- shows no package, or exactly those of the packages last loaded whose `repo` is the source that
  -- the address names, in the daemon's order; its cards display what it shows, each, its image
  -- aside, as rendering it displays it; and the hint is hidden exactly while it shows a package.
  pub open_page-of_source :
      (encode : Text → Text) (events : List Event)
      → All (Answers IsDistinct) events
      → let v = (open_page lower path source_name encode events).own in
        ((v.visible ≡ []) ⊎ (v.visible ≡ packages_of source_name v.packages))
        × All (λ p. (p.repo === source_name) ≡ true) v.visible
        × (map (λ c. without_image c.view) v.cards
            ≡ map (λ p. without_image (render_package_card lower path p)) v.visible)
        × (v.hint_hidden ≡ not (is_empty v.visible))
  unfolding open_page
  open_page-of_source encode events d =
      conclude _
        (run-Holds encode (page lower path source_name) page-IsKept
          (init (opening source_name) empty_source) events d (init-Holds (opening source_name))).0
    where
      of_source :
          (v : SourceView)
          → (v.visible ≡ []) ⊎ (v.visible ≡ packages_of source_name v.packages)
          → All (λ p. (p.repo === source_name) ≡ true) v.visible
      of_source v (inl e) = rw e tt
      of_source v (inr e) = rw e (All-select_self (λ p. p.repo === source_name) v.packages)

      conclude :
          (v : SourceView)
          → ShowsSource v
          → ((v.visible ≡ []) ⊎ (v.visible ≡ packages_of source_name v.packages))
            × All (λ p. (p.repo === source_name) ≡ true) v.visible
            × (map (λ c. without_image c.view) v.cards
                ≡ map (λ p. without_image (render_package_card lower path p)) v.visible)
            × (v.hint_hidden ≡ not (is_empty v.visible))
      conclude v s = (s.chosen, of_source v s.chosen, s.displays.shown, s.hidden)

  pub load_source_falls :
      (st : Stage) (a : Answer) (hint : Text) (v : SourceView) (l : Loaded SourceView) (st' : Stage)
      → load_source lower path source_name st a hint v ≡ some l
      → l.next ≡ some st'
      → weight st' < weight st
  unfolding load_source
  load_source_falls (get_repos none) (listed repos) hint v l st' e n =
      let same : get_packages ≡ st' = cc in rw (sym same) (omega arith)
  load_source_falls (get_repos none) (failed err) hint v l st' e n = absurd (cc)
  load_source_falls get_packages (loaded packages) hint v l st' e n = absurd (cc)
  load_source_falls get_packages (failed err) hint v l st' e n = absurd (cc)
  load_source_falls _ a hint v l st' e n = absurd (cc)

  weight_low : (st : Stage) → weight st ≤ 3
  weight_low get_packages = omega arith
  weight_low (get_repos none) = omega arith
  weight_low (get_repos (some p)) = omega arith
  weight_low (get_manifest p url) = omega arith

  -- A load of this page is two requests at most.
  pub page-IsFinite : IsFinite (page lower path source_name)
  unfolding page
  page-IsFinite = record { weight = weight; low = weight_low; falls = load_source_falls }
