-- ===== src/Sources/Frees.antt =====
-- An end of the chain of addSource enables its button again (frontend/kindle/pages/sources/sources.js).
use zen_pm.Prelude.{
  ◌≡◌, refl, ◌++◌, Option, none, some, Bool, true, false, Text, lit, if◌then◌else◌,
}
use zen_pm.Json.{Json, is_truthy, get_field}
use zen_pm.Sources.{Result, value, error, AddBox, hide_add_modal, refused, added}
use zen_pm.Sources.Page.{
  AddTask, get_registry, get_manifest, get_fallback, post_repo, SourceAnswer, fetched, posted,
  Advance, goes_on, ends, name_found, manifest_read, finished, advance,
}

-- An end of the chain leaves the button enabled.
abbrev pub Frees : Advance → Type 0
Frees (goes_on t b) = Unit
Frees (ends b again) = b.disabled ≡ false

pub either-Frees : (c : Bool) (x y : Advance) → Frees x → Frees y → Frees (if c then x else y)
either-Frees true x y h k = h
either-Frees false x y h k = k

added-Frees :
    (show : Json → Text) (b : AddBox) (r : Result Json) → Frees (finished (added show b r))
unfolding added refused hide_add_modal
added-Frees show b (error message) = refl
added-Frees show b (value result) = by_error (is_truthy (get_field (lit "error") result))
  where
    by_error :
        (c : Bool)
        → Frees (
            finished (
              if c
              then (
                record b {
                  message = lit "Error: " ++ show (get_field (lit "error") result);
                  disabled = false;
                },
                false,
              )
              else (record b { shown = false; disabled = false }, true)))
    by_error true = refl
    by_error false = refl

module _ (parse : Text → Option Json) (thrown : Text) (show : Json → Text) where
  name_found-Frees :
      (url : Text) (b : AddBox) (r : Result Json) → Frees (name_found parse thrown show url b r)
  unfolding name_found refused
  name_found-Frees url b (value name) = tt
  name_found-Frees url b (error message) = refl

  manifest_read-Frees :
      (url : Text) (b : AddBox) (r : Result Json) → Frees (manifest_read parse thrown show url b r)
  unfolding manifest_read name_found
  manifest_read-Frees url b (value name) = tt
  manifest_read-Frees url b (error message) = tt

  abbrev pub WillFree : Option Advance → Type 0
  WillFree none = Unit
  WillFree (some n) = Frees n

  pub advance-Frees :
      (t : AddTask) (a : SourceAnswer) (b : AddBox) → WillFree (advance parse thrown show t a b)
  unfolding advance
  advance-Frees (get_registry url) (fetched f) b = name_found-Frees url b _
  advance-Frees (get_manifest url) (fetched f) b = manifest_read-Frees url b _
  advance-Frees (get_fallback url) (fetched f) b = name_found-Frees url b _
  advance-Frees (post_repo name url) (posted r) b = added-Frees show b r
  advance-Frees _ a b = tt
