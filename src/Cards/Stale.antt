-- ===== src/Cards/Stale.antt =====
-- Cases in which `reconcilePackageCards` (frontend/kindle/utils.js) meets equal keys or signatures.
use zen_pm.Prelude.{ap, ℕ, ◌≡◌, refl, [], ◌∷◌, true, Text, ===_refl, ◌or◌, truthy}
use zen_pm.Package.{Package}
use zen_pm.Package.Signature.{package_card_signature-icon}
use zen_pm.Cards.Content.{package_keys}
use zen_pm.Cards.Again.{reconcile_package_cards_again}
use zen_pm.Cards.{new_card, reconcile_package_cards, package_key}

key_of_id : (i : ℕ) (p : Package) → truthy p.id ≡ true → package_key i p ≡ p.id
unfolding package_key
key_of_id i p t = truthy_or p.id _ t
  where
    truthy_or : (s u : Text) → truthy s ≡ true → (s or u) ≡ s
    truthy_or [] u h = cc
    truthy_or (c ∷ s) u h = refl

-- Where two packages have the same id, which is not empty, the search that shows just them in an
-- empty container and then a search that shows nothing leave the first one's card in the container.
pub reconcile_package_cards-stale :
    (lower : Text → Text) (path : Text) (p q : Package)
    → truthy p.id ≡ true
    → q.id ≡ p.id
    → let (cards, fresh) = reconcile_package_cards lower path (p ∷ q ∷ []) [] 0 in
      (reconcile_package_cards lower path [] cards fresh).0 ≡ new_card lower path 0 p 0 ∷ []
unfolding reconcile_package_cards new_card
reconcile_package_cards-stale lower path p q t e =
    rw (key_of_id 1 q (rw e t), e, key_of_id 0 p t, t, ===_refl p.id)

-- Once a package has been listed alone in an empty container, listing it alone again with another
-- `icon` or `image` leaves its card as it is.
pub reconcile_package_cards-stale_icon :
    (lower : Text → Text) (path : Text) (p : Package) (icon image : Text)
    → let (cards, fresh) = reconcile_package_cards lower path (p ∷ []) [] 0 in
      reconcile_package_cards lower path (record p { icon = icon; image = image } ∷ []) cards fresh
      ≡ (cards, fresh)
reconcile_package_cards-stale_icon lower path p icon image =
    reconcile_package_cards_again lower path (p ∷ []) (record p { icon = icon; image = image } ∷ [])
      [] 0 (tt, tt) (record { nodes = tt; keys = tt; keyed = tt; below = tt }) same_key
      (ap (λ s. s ∷ []) (package_card_signature-icon p icon image))
  where
    same_key :
        package_keys 0 (record p { icon = icon; image = image } ∷ []) ≡ package_keys 0 (p ∷ [])
    same_key = unfold package_key in refl
