-- ===== src/Sources/Adding.antt =====
-- Lemmas on addSource of frontend/kindle/pages/sources/sources.js.
use zen_pm.Prelude.{
  ◌≡◌, ◌↔◌, refl, ◌++◌, Option, Bool, true, false, not, Text, lit, if◌then◌else◌, truthy,
}
use zen_pm.Strings.{trim}
use zen_pm.Json.{Json, is_truthy, get_field}
use zen_pm.Sources.{
  Fetched, Result, value, error, AddBox, refused, naming, name_request, added, named, add_source,
}

-- The button works again; and the box is closed exactly if the list of sources is loaded again.
pub record IsSettled (outcome : AddBox × Bool) : Type 0 where
  pub free : outcome.0.disabled ≡ false
  pub closed : (outcome.0.shown ≡ false) ↔ (outcome.1 ≡ true)

left_open : (b : AddBox) → b.disabled ≡ false → b.shown ≡ true → IsSettled (b, false)
left_open b d h = record { free = d; closed = ((λ e. cc), (λ e. cc)) }

either :
    (c : Bool) (x y : AddBox × Bool) → IsSettled x → IsSettled y → IsSettled (if c then x else y)
either true x y h k = h
either false x y h k = k

module _ (get : Text → Fetched) (parse : Text → Option Json) (thrown : Text) (show : Json → Text)
    (post : Json → Text → Result Json) where
  added-IsSettled : (b : AddBox) (r : Result Json) → b.shown ≡ true → IsSettled (added show b r)
  unfolding added refused
  added-IsSettled b (error message) h = left_open (refused b message) refl h
  added-IsSettled b (value result) h =
      either (is_truthy (get_field (lit "error") result)) _ _
        (left_open
          (record b {
            message = lit "Error: " ++ show (get_field (lit "error") result);
            disabled = false;
          })
          refl h)
        (record { free = refl; closed = ((λ e. refl), (λ e. refl)) })

  named-IsSettled :
      (b : AddBox) (url : Text) (r : Result Json)
      → b.shown ≡ true
      → IsSettled (named get parse thrown show post b url r)
  unfolding named refused naming
  named-IsSettled b url (error message) h = left_open (refused b message) refl h
  named-IsSettled b url (value name) h = added-IsSettled (naming show b name) (post name url) h

  -- Adding a source from the open box ends, however the requests settle and whatever the servers
  -- answer, with the button free for another try; and the box is closed, and the list of sources
  -- loaded again, only together.
  pub add_source-IsSettled :
      (b : AddBox)
      → b.disabled ≡ false
      → b.shown ≡ true
      → IsSettled (add_source get parse thrown show post b)
  unfolding add_source
  add_source-IsSettled b d h =
      either (not (truthy (trim b.input))) _ _
        (left_open (record b { message = lit "Please enter a URL." }) d h)
        (named-IsSettled (record b { message = lit "Detecting repo..."; disabled = true })
          (trim b.input) (name_request get parse thrown (trim b.input)) h)
