-- ===== src/Tests/Pages.antt =====
-- Runs of the pages.
use zen_pm.Prelude.{
  ℕ, ◌===◌, ◌≡◌, refl, ◌⊎◌, ◌≤◌, ◌<◌, List, [], ◌∷◌, map, none, true, false, lit, All,
}
use zen_pm.Search.{wording, max_retries, page, open_page, visible}
use zen_pm.Installed
use zen_pm.Cards.Content.{without_image}
use zen_pm.Cards.Render.{render_package_card}
use zen_pm.Session.{Stage, Session, Event, settle, done, PendingOp, install, poll_timer}
use zen_pm.Session.Actions.{perform_package_action}
use zen_pm.Session.Loop.{resume, remove_at}
use zen_pm.Session.Events.{run, step, init}
use zen_pm.Session.Invariant.{Inv, init-Inv, operates, total}
use zen_pm.Session.Reachable.{run-Inv}
use zen_pm.Session.Quiet.{run_quiescent, run_one_operation}
use zen_pm.Session.Progress.{settle-rank, rank}
use zen_pm.Listing.{Listing, empty_list}
use zen_pm.Listing.Ids.{HaveDistinctIds, IsDistinct}
use zen_pm.Listing.Display.{list_page-IsFinite}
use zen_pm.Session.Page.{Page}
use zen_pm.Session.Keeps.{Answers}
use zen_pm.Search.Cards.{open_page-visible}
use zen_pm.Installed.Cards.{open_page-installed}
use zen_pm.Tests.Samples.{lower, encode, search_path, clock, reader, connect, ask, install_clock}

-- The operation of `ask`.
abbrev asked : PendingOp
asked = record {
  id = lit "clock";
  name = lit "Clock";
  action = install;
  was_installed = false;
  operation_id = lit "7";
}

abbrev discover : Page Listing
discover = page lower search_path

abbrev after : List Event → Session Listing
after events = run encode discover (init none empty_list) events

run_hint : (after connect).hint ≡ []
unfolding run init page lit resume wording empty_list zen_pm.Strings.trim
run_hint = refl

run_heading : (after connect).own.heading ≡ lit "Discover (2)"
unfolding run init page lit resume wording empty_list zen_pm.Strings.trim zen_pm.Decimal.to_text
run_heading = refl

-- A search finds what has its text in the name, in capitals or not.
found : visible lower (lit " CLO") (clock ∷ reader ∷ []) ≡ clock ∷ []
unfolding visible lit zen_pm.Strings.trim zen_pm.Strings.contains zen_pm.Search.matches
found = refl

found_installed : Installed.visible lower (lit "e") (clock ∷ reader ∷ []) ≡ reader ∷ []
unfolding Installed.visible lit zen_pm.Strings.trim zen_pm.Strings.contains zen_pm.Search.query_of
    zen_pm.Search.matches
found_installed = refl

run-Inv_example : Inv (after install_clock)
run-Inv_example =
    run-Inv encode discover (init none empty_list) install_clock (init-Inv none empty_list)

run_quiescent_example :
    ((after install_clock).busy ≡ false) × ((after install_clock).pending ≡ none)
unfolding run init page lit perform_package_action resume ◌===◌
run_quiescent_example = run_quiescent encode discover none empty_list install_clock refl refl

run_one_operation_example :
    (total operates (after ask).tasks ≤ 1)
    × (total operates (after ask).tasks ≡ 1 → (after ask).busy ≡ true)
run_one_operation_example = run_one_operation encode discover none empty_list ask

abbrev weight : Stage → ℕ
weight st = 0

-- The timer of the operation that is under way fires.
settle-rank_example :
    (rank weight (poll_timer asked 0) ≤ 130)
    × ((resume encode discover
            (poll_timer asked 0)
            done
            (record (after ask) { tasks = remove_at 0 (after ask).tasks })
          ≡ none)
        ⊎ (total (rank weight) (step encode discover (after ask) (settle 0 done)).tasks
            < total (rank weight) (after ask).tasks))
unfolding run init page lit perform_package_action resume ◌===◌
settle-rank_example =
    settle-rank encode discover (list_page-IsFinite lower search_path (wording lower) max_retries) 0
      done (after ask) {t = poll_timer asked 0} refl refl

listed : HaveDistinctIds (clock ∷ reader ∷ [])
unfolding lit
listed = ((λ e. cc), ((λ e. cc), tt), ((λ e. cc), tt, tt))

connect-Answers : All (Answers IsDistinct) connect
unfolding lit
connect-Answers = (tt, (listed, tt))

install_clock-Answers : All (Answers IsDistinct) install_clock
unfolding lit
install_clock-Answers = (tt, (listed, (tt, (tt, (tt, (tt, (tt, (tt, (listed, (tt, tt))))))))))

open_page-visible_example :
    let s = open_page lower search_path encode install_clock in
    map (λ c. without_image c.view) s.own.cards
    ≡ map
        (λ p. without_image (render_package_card lower search_path p))
        (visible lower s.own.query s.own.packages)
open_page-visible_example =
    open_page-visible lower search_path encode install_clock install_clock-Answers

open_page-installed_example :
    let s = Installed.open_page lower search_path encode connect in
    All (λ c. c.view.action_label ≡ lit "Modify") s.own.cards
    × (map (λ c. without_image c.view) s.own.cards
        ≡ map
            (λ p. without_image (render_package_card lower search_path p))
            (Installed.visible lower s.own.query s.own.packages))
open_page-installed_example = open_page-installed lower search_path encode connect connect-Answers
