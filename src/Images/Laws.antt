-- ===== src/Images/Laws.antt =====
-- Lemmas on cacheBustPackageImage and setImageWithFallback of frontend/kindle/utils.js.
use zen_pm.Prelude.{
  ◌≡◌, inl, inr, refl, ap, ◌∙◌, Bool, true, false, ◌&&◌, not, Bool-cases, Text, lit, truthy, ◌===◌,
}
use zen_pm.Strings.{contains}
use zen_pm.Images.{Img, on_error}

module _ (resolve : Text → Text) (token fallback : Text) where
  -- A failure changes nothing, or takes one of the two attempts for good.
  data Attempt (img img' : Img) : Type 0 where
    stays : img' ≡ img → Attempt img img'
    primary :
        img.tried_primary ≡ false
        → img'.tried_primary ≡ true
        → img'.tried_ico ≡ img.tried_ico
        → Attempt img img'
    ico :
        img.tried_ico ≡ false
        → img'.tried_ico ≡ true
        → img'.tried_primary ≡ img.tried_primary
        → Attempt img img'

  untried : (a b : Bool) → (not a && b) ≡ true → a ≡ false
  untried true b e = cc
  untried false b e = refl

  on_error-Attempt : (img : Img) → Attempt img (on_error resolve token fallback img)
  unfolding on_error
  on_error-Attempt img =
      elim (Bool-cases
        (not img.tried_primary && (truthy fallback && not (resolve img.src === fallback)))) [
          | inl p ↦ rw p (primary (untried img.tried_primary _ p) refl refl)
          | inr q ↦
              elim (Bool-cases (
                not img.tried_ico
                && (truthy (resolve img.src) && contains (lit "/favicon.svg") (resolve img.src)))) [
                  | inl p ↦ rw (q, p) (ico (untried img.tried_ico _ p) refl refl)
                  | inr r ↦ rw (q, r) (stays refl)
                ]
        ]

  on_error_done :
      (img : Img)
      → img.tried_primary ≡ true
      → img.tried_ico ≡ true
      → on_error resolve token fallback img ≡ img
  unfolding on_error
  on_error_done img p i = rw (p, i) refl

  settled :
      (img img' : Img)
      → Attempt img img'
      → Attempt img' (on_error resolve token fallback img')
      → (on_error resolve token fallback img ≡ img')
      → let last = on_error resolve token fallback img' in
        on_error resolve token fallback last ≡ last
  settled img img' (stays e) b r =
      ap (on_error resolve token fallback) (ap (on_error resolve token fallback) e ∙ r)
  settled img img' a (stays e) r = ap (on_error resolve token fallback) e
  settled img img' (primary p p' i) (primary q q' j) r = absurd (cc)
  settled img img' (primary p p' i) (ico q q' j) r = on_error_done _ (cc) (cc)
  settled img img' (ico p p' i) (primary q q' j) r = on_error_done _ (cc) (cc)
  settled img img' (ico p p' i) (ico q q' j) r = absurd (cc)

  -- An image gives up after two failures at most: a third changes nothing, whatever was tried and
  -- however the browser writes the addresses, so no image fails over and over.
  pub on_error_settles :
      (img : Img)
      → let twice = on_error resolve token fallback (on_error resolve token fallback img) in
        on_error resolve token fallback twice ≡ twice
  on_error_settles img = settled img _ (on_error-Attempt img) (on_error-Attempt _) refl
