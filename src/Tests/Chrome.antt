-- ===== src/Tests/Chrome.antt =====
-- Runs of the boxes, the log, the navigation bar and the system menu.
use zen_pm.Prelude.{◌≡◌, ◌≢◌, refl, [], ◌∷◌, none, some, Text, lit, ◌===◌, All}
use mathlib.Core.List.{reverse}
use zen_pm.Strings.{split, contains}
use zen_pm.Operation.{Failure}
use zen_pm.Json.{object, field, no_fields, string, lookup}
use zen_pm.Requests.{resolved, rejected}
use zen_pm.Session.{modify, Event, Session}
use zen_pm.Session.Page.{Page}
use zen_pm.Session.Events.{step, init}
use zen_pm.Listing.{Listing, empty_list}
use zen_pm.Search.{page}
use zen_pm.Boxes.{box_of}
use zen_pm.Boxes.Buttons.{IsChoice, Lacks, box_of-step}
use zen_pm.Log.{trim_timestamps, LogOutput, refresh_log}
use zen_pm.Log.Lines.{refresh_log-reverse}
use zen_pm.Menu.{overlay, render_about_overlay, show_about_modal}
use zen_pm.Startup.{debug_page, discover_page, start, ongo, timeout, init_page, setup_chrome}
use zen_pm.Startup.Once.{inits, chromes, start-once}
use zen_pm.Tests.Samples.{lower, encode, search_path, reader}

abbrev discover : Page Listing
discover = page lower search_path

abbrev opened : Session Listing
opened = init none empty_list

box_of-step_example :
    All
      (λ b.
        (step encode discover (record opened { modal = some (modify reader) }) b.does).modal
        ≢ some (modify reader))
      (box_of discover.offers_info (modify reader)).buttons
    × ((e : Event)
        → IsChoice e
        → Lacks e (box_of discover.offers_info (modify reader)).buttons
        → step encode discover (record opened { modal = some (modify reader) }) e
          ≡ record opened { modal = some (modify reader) })
box_of-step_example = box_of-step encode discover (modify reader) opened

abbrev log : Text
log = lit "2026-01-02T03:04:05Z started\n2026-01-02T03:05:00Z ready"

abbrev output : LogOutput
output = record { text = []; scroll_top = 40 }

abbrev show_error : Failure → Text
show_error err = err.message

-- The seconds are left out.
trimmed_log : trim_timestamps log ≡ lit "03:04 started\n03:05 ready"
unfolding trim_timestamps lit zen_pm.Strings.take zen_pm.Strings.drop
trimmed_log = refl

shown_log : (refresh_log show_error (resolved log) output).text ≡ lit "03:05 ready\n03:04 started"
unfolding refresh_log lit zen_pm.Strings.take zen_pm.Strings.drop split
shown_log = refl

refresh_log-reverse_example :
    let shown = (refresh_log show_error (resolved log) output).text in
    (trim_timestamps log ≢ [] → split b'\n' shown ≡ reverse (split b'\n' (trim_timestamps log)))
    × (trim_timestamps log ≡ [] → shown ≡ lit "Log is empty.")
refresh_log-reverse_example = refresh_log-reverse show_error log output

start-once_example :
    (inits (start debug_page (timeout ∷ ongo ∷ ongo ∷ [])) ≡ 1)
    × (chromes (start debug_page (timeout ∷ ongo ∷ ongo ∷ [])) ≡ 1)
start-once_example = start-once debug_page (timeout ∷ ongo ∷ ongo ∷ [])

-- The page "Discover" sets up the bars each time.
chrome_again :
    start discover_page (timeout ∷ ongo ∷ ongo ∷ [])
    ≡ init_page ∷ setup_chrome (lit "ZenPM - Discover") ∷ setup_chrome (lit "ZenPM - Discover") ∷ []
unfolding start
chrome_again = refl

-- The version is known, but the Kindle's own box cannot be shown.
forgotten_version :
    show_about_modal
      (resolved (object (field (lit "version") (string (lit "v1.2.0")) no_fields)))
      (λ message. rejected (record { status = some 500; message = lit "HTTP 500" }))
    ≡ overlay (render_about_overlay (lit "?"))
unfolding show_about_modal render_about_overlay lit zen_pm.Json.get_field zen_pm.Json.is_truthy
    ◌===◌
forgotten_version = refl
