-- ===== src/Sources/Chain.antt =====
-- The chain of requests of addSource (frontend/kindle/pages/sources/sources.js), step by step, with
-- nothing else in between.
use zen_pm.Prelude.{
  ℕ, zero, suc, ◌≡◌, refl, Option, none, some, Bool, true, false, not, Text, lit, if◌then◌else◌,
  truthy,
}
use zen_pm.Strings.{contains, trim}
use zen_pm.Json.{Json, string}
use zen_pm.Repos.{kindleforge_name}
use zen_pm.Sources.{
  Fetched, Result, value, error, AddBox, kindleforge_host, read_registry, read_manifest,
  registry_name, registry_at, manifest_at, name_request, added, naming, named, add_source,
}
use zen_pm.Sources.Page.{
  AddTask, get_registry, get_manifest, get_fallback, post_repo, SourceAnswer, fetched, posted,
  Advance, goes_on, ends, begin_add, name_found, manifest_read, finished, advance,
}

module _ (get : Text → Fetched) (parse : Text → Option Json) (thrown : Text) (show : Json → Text)
    (post : Json → Text → Result Json) where
  -- How each request of the chain is answered.
  abbrev pub answers : AddTask → SourceAnswer
  answers (get_registry url) = fetched (get (registry_at url))
  answers (get_manifest url) = fetched (get (manifest_at url))
  answers (get_fallback url) = fetched (get (registry_at url))
  answers (post_repo name url) = posted (post name url)

  -- The chain to its end, on fuel: the box, and whether the list of sources is loaded again.
  unfoldable pub follow : ℕ → Advance → Option (AddBox × Bool)
  follow n (ends b again) = some (b, again)
  follow zero (goes_on t b) = none
  follow (suc n) (goes_on t b) = elim (advance parse thrown show t (answers t) b) [
    | none ↦ none
    | some next ↦ follow n next
  ]

  follow-finished : (n : ℕ) (r : AddBox × Bool) → follow n (finished r) ≡ some r
  unfolding follow
  follow-finished zero r = refl
  follow-finished (suc n) r = refl

  follow-name_found :
      (n : ℕ) (url : Text) (b : AddBox) (r : Result Json)
      → follow (suc n) (name_found parse thrown show url b r)
        ≡ some (named get parse thrown show post b url r)
  unfolding follow name_found named advance
  follow-name_found n url b (error message) = refl
  follow-name_found n url b (value name) =
      follow-finished n (added show (naming show b name) (post name url))

  either-follow :
      (n : ℕ) (c : Bool) (x y : Advance) (p q : AddBox × Bool)
      → follow n x ≡ some p
      → follow n y ≡ some q
      → follow n (if c then x else y) ≡ some (if c then p else q)
  either-follow n true x y p q h k = h
  either-follow n false x y p q h k = k

  follow-manifest_read :
      (url : Text) (b : AddBox) (r : Result Json)
      → follow 2 (manifest_read parse thrown show url b r)
        ≡ some (
            named get parse thrown show post b url (elim r as (λ _. Result Json) [
              | value name ↦ value name
              | error message ↦
                  read_registry (λ text. registry_name thrown (parse text)) (get (registry_at url))
            ]))
  unfolding follow manifest_read advance
  follow-manifest_read url b (value name) = follow-name_found 1 url b (value name)
  follow-manifest_read url b (error message) =
      follow-name_found 0 url b
        (read_registry (λ text. registry_name thrown (parse text)) (get (registry_at url)))

  by_host :
      (url : Text) (b : AddBox) (c : Bool)
      → follow 3 (goes_on (if c then get_registry url else get_manifest url) b)
        ≡ some (
            named get parse thrown show post b url (
              if c
              then read_registry (λ text. value (string kindleforge_name)) (get (registry_at url))
              else elim (read_manifest parse (get (manifest_at url))) as (λ _. Result Json) [
                | value name ↦ value name
                | error message ↦
                    read_registry
                      (λ text. registry_name thrown (parse text))
                      (get (registry_at url))
              ]))
  unfolding follow advance
  by_host url b true =
      follow-name_found 1 url b
        (read_registry (λ text. value (string kindleforge_name)) (get (registry_at url)))
  by_host url b false = follow-manifest_read url b (read_manifest parse (get (manifest_at url)))

  -- Followed with nothing else in between, the chain that the page "Sources" begins comes to its end
  -- after three requests at most, and leaves the box, and loads the list of sources again, as
  -- `add_source` says.
  pub follow-add_source :
      (b : AddBox) → follow 3 (begin_add b) ≡ some (add_source get parse thrown show post b)
  unfolding begin_add add_source name_request
  follow-add_source b =
      either-follow 3 (not (truthy (trim b.input))) _ _ _ _ (unfold follow in refl) (
        by_host (trim b.input) (record b { message = lit "Detecting repo..."; disabled = true })
          (contains kindleforge_host (trim b.input)))
