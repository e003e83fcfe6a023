-- ===== src/Sources.antt =====
-- Adding a source: addSource of frontend/kindle/pages/sources/sources.js, with the box that it is
-- typed into. `get` is how `fetch` of an address settles, `parse` is JSON.parse, with `none` where
-- it throws, and `post` is how POST /repos settles. The messages of errors that the browser raises
-- itself are `thrown`.
pub mod Adding
pub mod Page
pub mod Settled
pub mod Frees
pub mod Chain
pub mod Linked
pub mod Rows
pub mod Progress
use zen_pm.Prelude.{
  ℕ, List, [], ◌∷◌, ◌++◌, Option, none, some, Bool, true, false, ◌||◌, not, ◌or◌, Text, lit, ◌===◌,
  if◌then◌else◌, truthy, first,
}
use zen_pm.Strings.{contains, split, trim, trim_right_slashes}
use zen_pm.Json.{Json, null, string, array, item, is_truthy, get_field}
use zen_pm.Repos.{kindleforge_name}

-- How a request to another server settles: the response was ok, was not, or there was none.
pub data Fetched : Type 0 where
  ok : Text → Fetched
  not_ok : Fetched
  broken : (message : Text) → Fetched

-- A value or the message of the error that was thrown.
pub data Result (A : Type 0) : Type 0 where
  value : A → Result A
  error : Text → Result A

unfoldable pub kindleforge_host : Text
kindleforge_host = lit "kf.penguins184.xyz"

-- `data && data.repo && data.repo.name`
unfoldable pub manifest_name : Option Json → Result Json
unfolding is_truthy get_field
manifest_name none = error (lit "SyntaxError")
manifest_name (some body) =
    let name = get_field (lit "name") (get_field (lit "repo") body) in
    if is_truthy name then value name else error (lit "no name in manifest")

abbrev pub head_of : List Text → Text
head_of [] = []
head_of (part ∷ parts) = part

-- `arr[0].uri.split("/")[0]` of a list with such an entry
unfoldable pub registry_name : Text → Option Json → Result Json
unfolding get_field is_truthy
registry_name thrown none = error thrown
registry_name thrown (some (array (item null items))) = error thrown
registry_name thrown (some (array (item entry items))) =
    let uri = get_field (lit "uri") entry in
    if not (is_truthy uri)
    then error (lit "unknown registry")
    else elim uri [ string s ↦ value (string (head_of (split b'/' s))) | _ ↦ error thrown ]
registry_name thrown (some _) = error (lit "unknown registry")

-- What is read off the registry, and off the manifest
unfoldable pub read_registry : (Text → Result Json) → Fetched → Result Json
read_registry read (ok text) = read text
read_registry read not_ok = error (lit "no registry")
read_registry read (broken message) = error message

unfoldable pub read_manifest : (Text → Option Json) → Fetched → Result Json
unfolding manifest_name
read_manifest parse (ok text) = manifest_name (parse text)
read_manifest parse not_ok = error (lit "no manifest")
read_manifest parse (broken message) = error message

-- The addresses of the two.
abbrev pub registry_at : Text → Text
registry_at url = trim_right_slashes url ++ lit "/" ++ lit "registry.json"

abbrev pub manifest_at : Text → Text
manifest_at url = trim_right_slashes url ++ lit "/" ++ lit "manifest.json"

module _ (get : Text → Fetched) (parse : Text → Option Json) (thrown : Text) where
  -- `nameRequest`
  unfoldable pub name_request : Text → Result Json
  unfolding read_registry read_manifest registry_name
  name_request url =
      if contains kindleforge_host url
      then read_registry (λ text. value (string kindleforge_name)) (get (registry_at url))
      else elim (read_manifest parse (get (manifest_at url))) [
        | value name ↦ value name
        | error message ↦
            read_registry (λ text. registry_name thrown (parse text)) (get (registry_at url))
      ]

-- The box: the text typed in, the message, whether its button is disabled, whether it is shown.
pub record AddBox : Type 0 where
  pub input : Text
  pub message : Text
  pub disabled : Bool
  pub shown : Bool

unfoldable pub show_add_modal : AddBox → AddBox
show_add_modal b = record b { input = []; message = []; shown = true }

unfoldable pub hide_add_modal : AddBox → AddBox
hide_add_modal b = record b { shown = false; disabled = false }

-- What the box says of an error
unfoldable pub told : Text → Text
told message =
    if message === lit "no manifest"
      || (message === lit "no registry" || message === lit "unknown registry")
    then lit "Could not detect repo format."
    else (message or lit "Error")

-- The last handler of the chain
unfoldable pub refused : AddBox → Text → AddBox
unfolding told
refused b message = record b { message = told message; disabled = false }

-- The handlers of the answer to POST /repos; the second component is whether the list of sources
-- is loaded again.
unfoldable pub added : (Json → Text) → AddBox → Result Json → AddBox × Bool
unfolding refused hide_add_modal
added show b (error message) = (refused b message, false)
added show b (value result) =
    let err = get_field (lit "error") result in
    if is_truthy err
    then (record b { message = lit "Error: " ++ show err; disabled = false }, false)
    else (hide_add_modal b, true)

-- the message while the source is added
unfoldable pub naming : (Json → Text) → AddBox → Json → AddBox
naming show b name = record b { message = lit "Adding " ++ (show name ++ lit "...") }

module _ (get : Text → Fetched) (parse : Text → Option Json) (thrown : Text) (show : Json → Text)
    (post : Json → Text → Result Json) where
  unfoldable pub named : AddBox → Text → Result Json → AddBox × Bool
  unfolding added naming
  named b url (error message) = (refused b message, false)
  named b url (value name) = added show (naming show b name) (post name url)

  -- `addSource`, when all its requests have settled and nothing else was done to the box meanwhile
  unfoldable pub add_source : AddBox → AddBox × Bool
  unfolding named name_request
  add_source b =
      let url = trim b.input in
      if not (truthy url)
      then (record b { message = lit "Please enter a URL." }, false)
      else named (record b { message = lit "Detecting repo..."; disabled = true }) url
          (name_request get parse thrown url)
