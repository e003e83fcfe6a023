-- ===== src/Tests/Adding.antt =====
-- Runs of adding a source.
use zen_pm.Prelude.{
  none, ◌≤◌, ◌<◌, ◌⊎◌, List, ◌∷◌, ◌≡◌, refl, [], Option, some, true, false, Text, lit, ◌===◌,
  if◌then◌else◌,
}
use zen_pm.Strings.{contains, trim_right_slashes, split}
use zen_pm.Json.{Json, null, string, array, object, item, no_items, field, no_fields}
use zen_pm.Sources.{Fetched, ok, not_ok, Result, value, error, AddBox, add_source, name_request}
use zen_pm.Strings.{trim}
use zen_pm.Session.Loop.{remove_at}
use zen_pm.Session.Invariant.{total}
use zen_pm.Sources.Page.{
  SourceEvent, open_box, close_box, confirm_add, type_url, settle, repos, fetched, SourcesPage,
  open_sources, begin_add, adding, get_fallback, resume, step,
}
use zen_pm.Sources.Chain.{follow, follow-add_source}
use zen_pm.Sources.Settled.{IsWaiting, open_sources-IsWaiting}
use zen_pm.Sources.Progress.{rank, settle-rank_falls}
use zen_pm.Repos.{Repo}
use zen_pm.Sources.Rows.{AllRows}
use zen_pm.Sources.Linked.{Leads, open_sources-Leads}
use zen_pm.Tests.Opening.{decode, clock-IsEncoded}
use zen_pm.Tests.Samples.{encode}
use zen_pm.Sources.Adding.{IsSettled, add_source-IsSettled}

abbrev box : AddBox
box = record { input = lit "https://s.org/"; message = []; disabled = false; shown = true }

-- A server that has a registry but no manifest.
abbrev get : Text → Fetched
get url = if url === lit "https://s.org/registry.json" then ok (lit "registry") else not_ok

abbrev parse : Text → Option Json
parse text =
    some (array (item (object (field (lit "uri") (string (lit "shelf/a")) no_fields)) no_items))

abbrev post : Json → Text → Result Json
post name url = value null

name_of_registry :
    name_request get parse (lit "TypeError") (lit "https://s.org/") ≡ value (string (lit "shelf"))
unfolding name_request lit trim_right_slashes contains ◌===◌ split zen_pm.Sources.kindleforge_host
name_of_registry = refl

add_source-IsSettled_example :
    IsSettled (add_source get parse (lit "TypeError") (λ json. lit "shelf") post box)
add_source-IsSettled_example =
    add_source-IsSettled get parse (lit "TypeError") (λ json. lit "shelf") post box refl refl

follow-add_source_example :
    follow get parse (lit "TypeError") (λ json. lit "shelf") post 3 (begin_add box)
    ≡ some (add_source get parse (lit "TypeError") (λ json. lit "shelf") post box)
follow-add_source_example =
    follow-add_source get parse (lit "TypeError") (λ json. lit "shelf") post box

-- A source is typed in and confirmed, its manifest cannot be read, and the box is closed.
abbrev add_shelf : List SourceEvent
add_shelf =
    settle 0 (repos (value []))
    ∷ open_box
    ∷ type_url (lit "https://s.org/")
    ∷ confirm_add
    ∷ settle 0 (fetched not_ok)
    ∷ close_box
    ∷ []

abbrev shelf_page : SourcesPage
shelf_page =
    open_sources parse (lit "TypeError") (λ json. lit "shelf") encode
      (lit "/pages/sources/index.html") add_shelf

open_sources-IsWaiting_example : IsWaiting shelf_page
open_sources-IsWaiting_example =
    open_sources-IsWaiting parse (lit "TypeError") (λ json. lit "shelf") encode
      (lit "/pages/sources/index.html") add_shelf

-- The registry is read.
settle-rank_falls_example :
    (rank (adding (get_fallback (lit "https://s.org/"))) ≤ 4)
    × ((resume parse
            (lit "TypeError")
            (λ json. lit "shelf")
            encode
            (lit "/pages/sources/index.html")
            (adding (get_fallback (lit "https://s.org/")))
            (fetched (ok (lit "registry")))
            (record shelf_page { tasks = remove_at 0 shelf_page.tasks })
          ≡ none)
        ⊎ (total rank
              (step parse
                (lit "TypeError")
                (λ json. lit "shelf")
                encode
                (lit "/pages/sources/index.html")
                shelf_page
                (settle 0 (fetched (ok (lit "registry"))))).tasks
            < total rank shelf_page.tasks))
unfolding open_sources lit contains trim ◌===◌ zen_pm.Sources.kindleforge_host
    zen_pm.Strings.trim_left zen_pm.Strings.trim_right zen_pm.Strings.is_space
    zen_pm.Sources.show_add_modal zen_pm.Sources.read_manifest
settle-rank_falls_example =
    settle-rank_falls parse (lit "TypeError") (λ json. lit "shelf") encode
      (lit "/pages/sources/index.html") 0 (fetched (ok (lit "registry"))) shelf_page
      {t = adding (get_fallback (lit "https://s.org/"))} refl

abbrev clock_source : Repo
clock_source = record {
  name = lit "clock";
  url = lit "https://c.org";
  icon_url = [];
  trust = [];
  is_default = false;
}

-- The list arrives.
abbrev list_arrives : List SourceEvent
list_arrives = settle 0 (repos (value (clock_source ∷ []))) ∷ []

open_sources-Leads_example :
    AllRows
      (Leads encode decode)
      (open_sources parse
        (lit "TypeError")
        (λ json. lit "shelf")
        encode
        (lit "/pages/sources/index.html")
        list_arrives).list
open_sources-Leads_example =
    open_sources-Leads encode decode parse (lit "TypeError") (λ json. lit "shelf")
      (lit "/pages/sources/index.html") list_arrives refl ((clock-IsEncoded, tt), tt)
