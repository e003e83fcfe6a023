-- ===== src/Images.antt =====
-- Images of cards (frontend/kindle/utils.js): the token that makes the browser load them again, and
-- the addresses that are tried in turn. `resolve` is the address that the browser makes of
-- `img.src`; `token` is packageImageRefreshToken.
pub mod Laws
use zen_pm.Prelude.{
  ℕ, ◌+◌, List, [], ◌∷◌, ◌++◌, Option, none, some, Bool, true, false, ◌&&◌, ◌||◌, not, Text, lit,
  ◌===◌, if◌then◌else◌, truthy, ◌or◌,
}
use zen_pm.Strings.{index_of, contains, take, drop}

-- The part in front of the first "#", and the rest.
unfoldable pub split_fragment : Text → Text × Text
split_fragment url = elim (index_of (lit "#") url) [
  | none ↦ (url, [])
  | some i ↦ (take i url, drop i url)
]

unfoldable pub cache_bust_package_image : Text → Text → Text
unfolding split_fragment
cache_bust_package_image token url =
    if not (truthy token) || not (truthy url)
    then url
    else (let (base, fragment) = split_fragment url in
        base
        ++ ((if contains (lit "?") base then lit "&" else lit "?")
            ++ (lit "zenpm_refresh=" ++ (token ++ fragment))))

-- `s.replace(old, new)` where `old` occurs, `n` being its length; else `s`.
abbrev pub replace_at : ℕ → Text → Text → Option ℕ → Text
replace_at n new s none = s
replace_at n new s (some i) = take i s ++ (new ++ drop (i + n) s)

-- An image element: what `img.src` was set to, and the flags of `setImageWithFallback`.
pub record Img : Type 0 where
  pub src : Text
  pub tried_primary : Bool
  pub tried_ico : Bool

module _ (resolve : Text → Text) (token fallback : Text) where
  -- `img.onerror`
  unfoldable pub on_error : Img → Img
  on_error img =
      if not img.tried_primary && (truthy fallback && not (resolve img.src === fallback))
      then record img { tried_primary = true; src = cache_bust_package_image token fallback }
      else if not img.tried_ico
          && (truthy (resolve img.src) && contains (lit "/favicon.svg") (resolve img.src))
      then record img {
        tried_ico = true;
        src =
            replace_at 12 (lit "/favicon.ico") (resolve img.src)
              (index_of (lit "/favicon.svg") (resolve img.src));
      }
      else img

  -- `setImageWithFallback`, up to the first error
  unfoldable pub set_image_with_fallback : Text → Img
  set_image_with_fallback primary = record {
    src = cache_bust_package_image token (primary or (fallback or []));
    tried_primary = false;
    tried_ico = false;
  }
