-- ===== src/Sources/Page.antt =====
-- frontend/kindle/pages/sources/sources.js: the page "Sources". Its state is the box for adding a
-- source, the list of sources and the requests in flight; an event is what the user does, or that
-- one request settles, in any order. Messages to the log and the position of scrolling are left out.
use zen_pm.Prelude.{
  ℕ, List, [], ◌∷◌, ◌++◌, map, Option, none, some, Bool, true, false, not, Text, lit, get_elem?,
  if◌then◌else◌, truthy,
}
use zen_pm.Strings.{contains, trim}
use zen_pm.Json.{Json, string}
use zen_pm.Cards.Media.{MediaOptions, no_options, MediaCard, render_media_card}
use zen_pm.Repos.{Repo, kindleforge_name, repo_icon_url, repo_display_name}
use zen_pm.SourceDetails.{repo_verification_icon, repo_verification_label}
use zen_pm.Session.Loop.{remove_at}
use zen_pm.Sources.{
  Fetched, Result, value, error, AddBox, kindleforge_host, read_registry, read_manifest,
  registry_name, show_add_modal, hide_add_modal, refused, added, naming,
}

-- One row of the list.
pub record Row : Type 0 where
  pub name : Text  -- what "Remove" sends
  pub card : MediaCard
  pub verification_icon : Text
  pub verification_label : Text
  pub href : Text

pub data SourceList : Type 0 where
  loading : SourceList
  no_sources : SourceList
  load_failed : (message : Text) → SourceList
  rows : Row → List Row → SourceList

-- The request that the chain of `addSource` waits for.
pub data AddTask : Type 0 where
  get_registry get_manifest get_fallback : (url : Text) → AddTask
  post_repo : (name : Json) (url : Text) → AddTask

pub data SourceTask : Type 0 where
  adding : AddTask → SourceTask
  load_repos : SourceTask
  delete_repo : (name : Text) → SourceTask
  refresh_repos : SourceTask

-- How a request settles: one to another server, POST /repos, GET /repos, or one whose answer is not
-- read.
pub data SourceAnswer : Type 0 where
  fetched : Fetched → SourceAnswer
  posted : Result Json → SourceAnswer
  repos : Result (List Repo) → SourceAnswer
  done failed : SourceAnswer

pub record SourcesPage : Type 0 where
  pub box : AddBox
  pub list : SourceList
  pub tasks : List SourceTask

pub data SourceEvent : Type 0 where
  open_box close_box confirm_add refresh_menu : SourceEvent
  type_url : Text → SourceEvent
  remove_row : (name : Text) → SourceEvent
  settle : ℕ → SourceAnswer → SourceEvent

-- What follows a step of the chain of `addSource`: another request, or its end, and whether the list
-- is loaded again.
pub data Advance : Type 0 where
  goes_on : AddTask → AddBox → Advance
  ends : AddBox → Bool → Advance

-- `sourceDetailsURL`, its query being the part after the name of the page
unfoldable pub source_search : (Text → Text) → Text → Text
source_search encode name = lit "?name=" ++ encode name

unfoldable pub source_details_url : (Text → Text) → Repo → Text
unfolding source_search
source_details_url encode repo =
    lit "../source-details/index.html" ++ source_search encode repo.name

-- what renderMediaCard is given for a source
unfoldable pub row_options : Text → Repo → MediaOptions
unfolding no_options
row_options path repo = record no_options {
  tag_name = lit "div";
  class_name = lit "repo-row";
  clickable = true;
  image_src = repo_icon_url path repo (lit "../../assets/sources.svg");
  image_fallback = lit "../../assets/sources.svg";
  title = repo_display_name repo.name;
  line2 = repo.url;
  action = if repo.is_default then none else some (lit "Remove");
}

-- one turn of the loop of `renderRepos`; the title is written again, with the icon behind it
unfoldable pub render_row : (Text → Text) → Text → Repo → Row
unfolding source_details_url row_options render_media_card
render_row encode path repo = record {
  name = repo.name;
  card = render_media_card path (row_options path repo);
  verification_icon = repo_verification_icon repo;
  verification_label = repo_verification_label repo;
  href = source_details_url encode repo;
}

unfoldable pub render_repos : (Text → Text) → Text → List Repo → SourceList
unfolding render_row
render_repos encode path [] = no_sources
render_repos encode path (r ∷ rs) =
    rows (render_row encode path r) (map (render_row encode path) rs)

-- `addSource` up to its first request
unfoldable pub begin_add : AddBox → Advance
begin_add b =
    let url = trim b.input in
    if not (truthy url)
    then ends (record b { message = lit "Please enter a URL." }) false
    else goes_on (if contains kindleforge_host url then get_registry url else get_manifest url)
        (record b { message = lit "Detecting repo..."; disabled = true })

abbrev pub finished : AddBox × Bool → Advance
finished (b, again) = ends b again

abbrev pub add_task : SourceTask → SourcesPage → SourcesPage
add_task t s = record s { tasks = s.tasks ++ t ∷ [] }

-- `loadRepos`
unfoldable pub load_list : SourcesPage → SourcesPage
load_list s = add_task load_repos (record s { list = loading })

unfoldable pub advanced : Advance → SourcesPage → SourcesPage
unfolding load_list
advanced (goes_on t b) s = add_task (adding t) (record s { box = b })
advanced (ends b false) s = record s { box = b }
advanced (ends b true) s = load_list (record s { box = b })

module _ (parse : Text → Option Json) (thrown : Text) (show : Json → Text) where
  unfoldable pub name_found : Text → AddBox → Result Json → Advance
  unfolding naming
  name_found url b (error message) = ends (refused b message) false
  name_found url b (value name) = goes_on (post_repo name url) (naming show b name)

  -- A failure to read the manifest leads to the registry.
  unfoldable pub manifest_read : Text → AddBox → Result Json → Advance
  unfolding name_found
  manifest_read url b (error message) = goes_on (get_fallback url) b
  manifest_read url b (value name) = name_found url b (value name)

  -- The handlers of one request of the chain; `none` where it cannot settle so.
  unfoldable pub advance : AddTask → SourceAnswer → AddBox → Option Advance
  unfolding name_found manifest_read
  advance (get_registry url) (fetched f) b =
      some (name_found url b (read_registry (λ text. value (string kindleforge_name)) f))
  advance (get_manifest url) (fetched f) b = some (manifest_read url b (read_manifest parse f))
  advance (get_fallback url) (fetched f) b =
      some (name_found url b (read_registry (λ text. registry_name thrown (parse text)) f))
  advance (post_repo name url) (posted r) b = some (finished (added show b r))
  advance _ a b = none

  module _ (encode : Text → Text) (path : Text) where
    -- What a request's callbacks do, given how it settles; the request is no longer in the list.
    -- `none` where it cannot settle so.
    unfoldable pub resume : SourceTask → SourceAnswer → SourcesPage → Option SourcesPage
    unfolding advanced advance load_list render_repos
    resume (adding t) a s = elim (advance t a s.box) [ none ↦ none | some n ↦ some (advanced n s) ]
    resume load_repos (repos (value list)) s =
        some (record s { list = render_repos encode path list })
    resume load_repos (repos (error message)) s = some (record s { list = load_failed message })
    resume (delete_repo name) done s = some (load_list s)
    resume (delete_repo name) failed s = some s
    resume refresh_repos done s = some (load_list s)
    resume refresh_repos failed s = some (load_list s)
    resume _ a s = none

    unfoldable pub settle_task : ℕ → Option SourceTask → SourceAnswer → SourcesPage → SourcesPage
    unfolding resume
    settle_task n none a s = s
    settle_task n (some t) a s = elim (resume t a (record s { tasks = remove_at n s.tasks })) [
      | none ↦ s
      | some s' ↦ s'
    ]

    -- A button that is disabled takes no click, nor does a box that is not shown.
    unfoldable pub step : SourcesPage → SourceEvent → SourcesPage
    unfolding advanced begin_add settle_task
    step s open_box = record s { box = show_add_modal s.box }
    step s close_box = record s { box = hide_add_modal s.box }
    step s (type_url text) =
        if s.box.shown then record s { box = record (s.box) { input = text } } else s
    step s confirm_add =
        if not s.box.shown then s else if s.box.disabled then s else advanced (begin_add s.box) s
    step s refresh_menu = add_task refresh_repos s
    step s (remove_row name) = add_task (delete_repo name) s
    step s (settle n a) = settle_task n (get_elem? s.tasks n) a s

    unfoldable pub run : SourcesPage → List SourceEvent → SourcesPage
    unfolding step
    run s [] = s
    run s (e ∷ events) = run (step s e) events

    -- After `init`: the list is being loaded.
    unfoldable pub open_sources : List SourceEvent → SourcesPage
    unfolding run load_list
    open_sources events =
        run
          (load_list (record {
            box = record { input = []; message = []; disabled = false; shown = false };
            list = loading;
            tasks = [];
          }))
          events
