-- ===== src/Listing/Display.antt =====
-- The cards that renderPackages leaves (frontend/kindle/pages/search/script.js).
use zen_pm.Prelude.{◌<◌, arith, ℕ, ◌≡◌, refl, List, [], map, none, some, Text, All}
use zen_pm.Package.{Package}
use zen_pm.Cards.{Card, reconcile_package_cards}
use zen_pm.Cards.Render.{render_package_card}
use zen_pm.Cards.Reconcile.{IsTidy}
use zen_pm.Cards.Content.{
  IsFaithful, without_image, reconcile_package_cards-view, reconcile_package_cards-IsFaithful,
}
use zen_pm.Cards.Again.{reconcile_package_cards-IsTidy}
use zen_pm.Session.{Stage, get_packages, Answer, loaded, failed, Event}
use zen_pm.Session.Events.{run, init}
use zen_pm.Session.Page.{IsFinite, Loaded}
use zen_pm.Session.Keeps.{IsKept, Arrives, Answers}
use zen_pm.Session.Kept.{run-Holds}
use zen_pm.Listing.{
  Listing, Wording, empty_list, render_packages, load_packages, type_in, list_page,
}
use zen_pm.Listing.Ids.{HaveDistinctIds, HaveDistinctKeys-of_ids, IsDistinct}

-- A load of a list is one request, of which nothing is asked.
abbrev AnyStage : Stage → Type 0
AnyStage _ = Unit

-- Distinct elements that this code has made, each displaying, its image aside, what rendering the
-- package in its place displays.
pub record Displays (lower : Text → Text) (path : Text) (packages : List Package)
    (cards : List Card) (fresh : ℕ) : Type 0 where
  pub tidy : IsTidy cards fresh
  pub faithful : All (IsFaithful lower path) cards
  pub shown :
      map (λ c. without_image c.view) cards
      ≡ map (λ p. without_image (render_package_card lower path p)) packages

pub reconcile_package_cards-Displays :
    (lower : Text → Text) (path : Text) (packages : List Package) (cards : List Card) (fresh : ℕ)
    → HaveDistinctIds packages
    → IsTidy cards fresh
    → All (IsFaithful lower path) cards
    → let (cards', fresh') = reconcile_package_cards lower path packages cards fresh in
      Displays lower path packages cards' fresh'
reconcile_package_cards-Displays lower path packages cards fresh d t f = record {
  tidy =
      reconcile_package_cards-IsTidy lower path packages cards fresh
        (HaveDistinctKeys-of_ids packages d) t;
  faithful = reconcile_package_cards-IsFaithful lower path packages cards fresh t f;
  shown = reconcile_package_cards-view lower path packages cards fresh t f;
}

pub nil-Displays : (lower : Text → Text) (path : Text) (fresh : ℕ) → Displays lower path [] [] fresh
nil-Displays lower path fresh = record {
  tidy = record { nodes = tt; keys = tt; keyed = tt; below = tt };
  faithful = tt;
  shown = refl;
}

module _ (lower : Text → Text) (path : Text) (wording : Wording) where
  -- The cards display the packages that the page shows of those last loaded.
  abbrev pub Shows : Listing → Type 0
  Shows l =
      HaveDistinctIds l.packages
      × Displays lower path (wording.visible l.query l.packages) l.cards l.fresh

  module _
      (keeps : (query : Text) (packages : List Package)
        → HaveDistinctIds packages
        → HaveDistinctIds (wording.visible query packages)) where
    render_packages-Shows :
        (l : Listing)
        → HaveDistinctIds l.packages
        → IsTidy l.cards l.fresh
        → All (IsFaithful lower path) l.cards
        → Shows (render_packages lower path wording l).0
    unfolding render_packages
    render_packages-Shows l d t f =
        (d, reconcile_package_cards-Displays lower path _ l.cards l.fresh (keeps _ _ d) t f)

    load_packages-Shows :
        (st : Stage) (a : Answer) (hint : Text) (l : Listing)
        → AnyStage st
        → IsDistinct a
        → Shows l
        → Arrives Shows AnyStage (load_packages lower path wording st a hint l)
    unfolding load_packages
    load_packages-Shows get_packages (loaded packages) hint l q d (_, s) =
        (render_packages-Shows (record l { packages = packages }) d s.tidy s.faithful, tt)
    load_packages-Shows get_packages (failed err) hint l q d s = (s, tt)
    load_packages-Shows _ a hint l q d s = tt

    list_page-IsKept :
        (max_retries : ℕ)
        → IsKept (list_page lower path wording max_retries) Shows AnyStage IsDistinct
    unfolding list_page type_in
    list_page-IsKept max_retries = record {
      first = tt;
      loads = load_packages-Shows;
      types = λ text hint l (d, s).
          render_packages-Shows (record l { query = text }) d s.tidy s.faithful;
    }

    -- After any events the list shows what the search box leaves of the packages last loaded.
    pub run-Shows :
        (encode : Text → Text) (max_retries : ℕ) (events : List Event)
        → wording.visible [] [] ≡ []
        → All (Answers IsDistinct) events
        → Shows
            (run encode
              (list_page lower path wording max_retries)
              (init none empty_list)
              events).own
    unfolding init empty_list
    run-Shows encode max_retries events e d =
        (run-Holds encode (list_page lower path wording max_retries) (list_page-IsKept max_retries)
          (init none empty_list) events d ((tt, rw e (nil-Displays lower path 0)), (tt, tt))).0

pub load_packages_last :
    (lower : Text → Text) (path : Text) (wording : Wording) (st : Stage) (a : Answer) (hint : Text)
    (l : Listing) (r : Loaded Listing) (st' : Stage)
    → load_packages lower path wording st a hint l ≡ some r
    → r.next ≡ some st'
    → 0 < 0
unfolding load_packages
load_packages_last lower path wording get_packages (loaded packages) hint l r st' e n = absurd (cc)
load_packages_last lower path wording get_packages (failed err) hint l r st' e n = absurd (cc)
load_packages_last lower path wording _ a hint l r st' e n = absurd (cc)

-- A load of these pages is one request.
abbrev pub list_page-IsFinite :
    (lower : Text → Text) (path : Text) (wording : Wording) (max_retries : ℕ)
    → IsFinite (list_page lower path wording max_retries)
unfolding list_page
list_page-IsFinite lower path wording max_retries = record {
  weight = λ st. 0;
  low = λ st. omega arith;
  falls = load_packages_last lower path wording;
}
