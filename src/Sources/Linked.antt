-- ===== src/Sources/Linked.antt =====
-- The rows of the page "Sources" and the pages of their sources: sourceDetailsURL and renderRepos of
-- frontend/kindle/pages/sources/sources.js against queryValue.
use zen_pm.Prelude.{
  refl, List, All, ◌≡◌, ap, ◌∙◌, [], ◌∷◌, ◌++◌, Option, some, Text, lit, ===_refl, arith,
}
use zen_pm.Strings.{split, drop}
use zen_pm.Strings.Laws.{Without, split-Without}
use zen_pm.Details.{query_value, query_parts}
use zen_pm.Details.Query.{IsEncoded, part_lem}
use zen_pm.Json.{Json}
use zen_pm.Repos.{Repo, repo_display_name}
use zen_pm.Cards.Media.{render_media_card}
use zen_pm.Sources.{value}
use zen_pm.Sources.Page.{
  Row, SourceEvent, settle, repos, source_search, source_details_url, row_options, render_row,
  open_sources, load_list,
}
use zen_pm.Sources.Rows.{AllRows, GivesRows, run-AllRows}

module _ (encode : Text → Text) (decode : Text → Option Text) where
  search_parts :
      (name : Text)
      → IsEncoded encode decode name
      → split 38 (drop 1 (source_search encode name)) ≡ (lit "name" ++ 61 ∷ encode name) ∷ []
  unfolding source_search lit drop
  search_parts name c = split-Without 38 (lit "name" ++ 61 ∷ encode name) (
    (λ e. omega arith),
    (
      (λ e. omega arith),
      ((λ e. omega arith), ((λ e. omega arith), ((λ e. omega arith), c.no_ampersand))),
    ),
  )

  -- Where the name is a text that decoding gives back, the page that the link of a source leads to
  -- reads that name off its address.
  pub query_value-source_search :
      (name : Text)
      → decode (lit "name") ≡ some (lit "name")
      → IsEncoded encode decode name
      → query_value decode (lit "name") (source_search encode name) ≡ some name
  unfolding query_value
  query_value-source_search name d c =
      ap (query_parts decode (lit "name")) (search_parts name c)
      ∙ (rw (===_refl (lit "name")) at
          (part_lem encode decode (lit "name") name (lit "name") [] no_equals d c))
    where
      no_equals : Without 61 (lit "name")
      no_equals =
          unfold lit in
          ((λ e. omega arith), ((λ e. omega arith), ((λ e. omega arith), ((λ e. omega arith), tt))))

  -- The row says the source that it leads to.
  abbrev pub Leads : Row → Type 0
  Leads row =
      (search : Text) × (row.href ≡ lit "../source-details/index.html" ++ search)
      × (query_value decode (lit "name") search ≡ some row.name)
      × (row.card.title ≡ repo_display_name row.name)

  -- An answer lists sources whose names decoding gives back.
  abbrev pub NamesEncoded : SourceEvent → Type 0
  NamesEncoded (settle n (repos (value list))) = All (λ r. IsEncoded encode decode r.name) list
  NamesEncoded _ = Unit

  module _ (parse : Text → Option Json) (thrown : Text) (show : Json → Text) (path : Text) where
    render_row-Leads :
        (r : Repo)
        → decode (lit "name") ≡ some (lit "name")
        → IsEncoded encode decode r.name
        → Leads (render_row encode path r)
    unfolding render_row source_details_url row_options render_media_card
    render_row-Leads r d c =
        (source_search encode r.name, refl, query_value-source_search r.name d c, refl)

    each-GivesRows :
        (e : SourceEvent)
        → decode (lit "name") ≡ some (lit "name")
        → NamesEncoded e
        → GivesRows Leads parse thrown show encode path e
    each-GivesRows (settle n (repos (value list))) d h = each_row list h
      where
        each_row :
            (list : List Repo)
            → All (λ r. IsEncoded encode decode r.name) list
            → All (λ r. Leads (render_row encode path r)) list
        each_row [] h = tt
        each_row (r ∷ rs) (c, h) = (render_row-Leads r d c, each_row rs h)
    each-GivesRows _ d h = tt

    All-GivesRows :
        (events : List SourceEvent)
        → decode (lit "name") ≡ some (lit "name")
        → All NamesEncoded events
        → All (GivesRows Leads parse thrown show encode path) events
    All-GivesRows [] d h = tt
    All-GivesRows (e ∷ events) d (k, h) = (each-GivesRows e d k, All-GivesRows events d h)

    -- As long as the daemon lists sources whose names decoding gives back, and the word "name" decodes
    -- to itself, after any events each row that is shown leads to a page that reads off its address the name of the source that the row
    -- is for, and whose display name is the row's title.
    pub open_sources-Leads :
        (events : List SourceEvent)
        → decode (lit "name") ≡ some (lit "name")
        → All NamesEncoded events
        → AllRows Leads (open_sources parse thrown show encode path events).list
    unfolding open_sources load_list
    open_sources-Leads events d h =
        run-AllRows Leads parse thrown show encode path _ events (All-GivesRows events d h) tt
