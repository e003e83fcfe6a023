-- ===== src/Package/Signature.antt =====
-- `signatureValue` and `packageCardSignature` of frontend/kindle/utils.js: the text by which
-- `reconcilePackageCards` tells whether a card has to be rendered again.
use zen_pm.Prelude.{
  ℕ, ◌≤◌, ◌≡◌, refl, ap₂, List, [], ◌∷◌, ◌++◌, arith, Text, lit, length, Bool, if◌then◌else◌, All,
}
use zen_pm.Decimal.{to_text, to_text-IsDigit, to_text_inj}
use zen_pm.Package.{Package}
use mathlib.Core.List.{append_assoc}

-- A field that is null or undefined counts as the empty text.
signature_value : Text → Text
signature_value text = to_text (length text) ++ (lit ":" ++ text)

-- `list.join(",")`
join : Text → List Text → Text
join sep [] = []
join sep (x ∷ []) = x
join sep (x ∷ y ∷ r) = x ++ (sep ++ join sep (y ∷ r))

abbrev flag : Bool → Text
flag b = if b then lit "1" else lit "0"

card_parts : Package → List Text
card_parts pkg =
    pkg.id
    ∷ pkg.name
    ∷ pkg.repo
    ∷ pkg.version
    ∷ pkg.description
    ∷ pkg.author
    ∷ pkg.icon_url
    ∷ pkg.repo_icon_url
    ∷ pkg.repo_trust
    ∷ flag pkg.repo_default
    ∷ pkg.image_url
    ∷ join (lit ",") pkg.images
    ∷ flag pkg.featured
    ∷ pkg.featured_image
    ∷ flag pkg.installed
    ∷ join (lit ",") pkg.tags
    ∷ []

concat_values : List Text → Text
concat_values [] = []
concat_values (p ∷ parts) = signature_value p ++ concat_values parts

unfoldable pub package_card_signature : Package → Text
unfolding concat_values signature_value join card_parts
package_card_signature pkg = concat_values (card_parts pkg)

abbrev IsDigit : ℕ → Type 0
IsDigit c = (48 ≤ c) × (c ≤ 57)

-- Digits end at the first colon.
digits-colon_inj :
    (s t : Text) (u v : Text)
    → All IsDigit s
    → All IsDigit t
    → s ++ (58 ∷ u) ≡ t ++ (58 ∷ v)
    → (s ≡ t) × (u ≡ v)
digits-colon_inj [] [] u v h k e = (refl, cc)
digits-colon_inj [] (y ∷ t) u v h (k, _) e = absurd (ground arith)
digits-colon_inj (x ∷ s) [] u v (h, _) k e = absurd (ground arith)
digits-colon_inj (x ∷ s) (y ∷ t) u v (_, h) (_, k) e =
    let (p, q) = digits-colon_inj s t u v h k (cc) in (cc, q)

append_inj : (s t u v : Text) → length s ≡ length t → s ++ u ≡ t ++ v → (s ≡ t) × (u ≡ v)
append_inj [] [] u v n e = (refl, e)
append_inj [] (y ∷ t) u v n e = absurd (omega arith)
append_inj (x ∷ s) [] u v n e = absurd (omega arith)
append_inj (x ∷ s) (y ∷ t) u v n e = let (p, q) = append_inj s t u v (omega arith) (cc) in (cc, q)

-- A value in front of any text can be read off again: no field runs into the next one.
signature_value_inj :
    (a b u v : Text) → signature_value a ++ u ≡ signature_value b ++ v → (a ≡ b) × (u ≡ v)
unfolding signature_value lit
signature_value_inj a b u v e =
    let (p, q) =
      digits-colon_inj (to_text (length a)) (to_text (length b)) (a ++ u) (b ++ v)
        (to_text-IsDigit (length a)) (to_text-IsDigit (length b)) (simp append_assoc at e) in
    append_inj a b u v (to_text_inj (length a) (length b) p) q

concat_values_inj :
    (xs ys : List Text) → length xs ≡ length ys → concat_values xs ≡ concat_values ys → xs ≡ ys
unfolding concat_values
concat_values_inj [] [] n e = refl
concat_values_inj [] (y ∷ ys) n e = absurd (omega arith)
concat_values_inj (x ∷ xs) [] n e = absurd (omega arith)
concat_values_inj (x ∷ xs) (y ∷ ys) n e =
    let (p, q) = signature_value_inj x y (concat_values xs) (concat_values ys) e in
    ap₂ ◌∷◌ p (concat_values_inj xs ys (omega arith) q)

flag_inj : (a b : Bool) → flag a ≡ flag b → a ≡ b
unfolding lit
flag_inj a b e = ground arith

-- What two packages share when their signatures are equal.
pub record SameCard (p q : Package) : Type 0 where
  pub same_id : p.id ≡ q.id
  pub same_name : p.name ≡ q.name
  pub same_repo : p.repo ≡ q.repo
  pub same_version : p.version ≡ q.version
  pub same_description : p.description ≡ q.description
  pub same_author : p.author ≡ q.author
  pub same_icon_url : p.icon_url ≡ q.icon_url
  pub same_repo_icon_url : p.repo_icon_url ≡ q.repo_icon_url
  pub same_repo_trust : p.repo_trust ≡ q.repo_trust
  pub same_repo_default : p.repo_default ≡ q.repo_default
  pub same_image_url : p.image_url ≡ q.image_url
  pub same_featured : p.featured ≡ q.featured
  pub same_featured_image : p.featured_image ≡ q.featured_image
  pub same_installed : p.installed ≡ q.installed

-- Packages whose signatures are equal agree in every text field and flag that the signature
-- names, whatever texts the fields hold.
pub package_card_signature_inj :
    (p q : Package) → package_card_signature p ≡ package_card_signature q → SameCard p q
unfolding package_card_signature
package_card_signature_inj p q e =
    parts_agree (concat_values_inj (card_parts p) (card_parts q) refl e)
  where
    parts_agree : card_parts p ≡ card_parts q → SameCard p q
    parts_agree h = record {
      same_id = cc;
      same_name = cc;
      same_repo = cc;
      same_version = cc;
      same_description = cc;
      same_author = cc;
      same_icon_url = cc;
      same_repo_icon_url = cc;
      same_repo_trust = cc;
      same_repo_default = flag_inj _ _ (cc);
      same_image_url = cc;
      same_featured = flag_inj _ _ (cc);
      same_featured_image = cc;
      same_installed = flag_inj _ _ (cc);
    }

-- The signature says nothing of `icon` and `image`, which `firstPackageImage` reads.
pub package_card_signature-icon :
    (p : Package) (icon image : Text)
    → package_card_signature (record p { icon = icon; image = image }) ≡ package_card_signature p
unfolding package_card_signature
package_card_signature-icon p icon image = refl
