-- ===== src/Cards.antt =====
-- `renderPackageCard` and `reconcilePackageCards` of frontend/kindle/utils.js. A card element is
-- its identity in the document (`node`), its attribute data-package-id (`key`, empty where there is
-- none), its property _zenpmPackageSignature (`signature`), the package that its handlers hold
-- (`shown`) and what it displays (`view`).
pub mod Media
pub mod Render
pub mod Shape
pub mod Keys
pub mod Place
pub mod Reconcile
pub mod Content
pub mod Again
pub mod Stale
use zen_pm.Prelude.{
  ℕ, zero, suc, ◌+◌, ◌≡◌, List, [], ◌∷◌, ◌++◌, Option, none, some, Bool, true, false, ◌&&◌, ◌||◌,
  not, Text, ◌===◌, ◌==◌, if◌then◌else◌, truthy, ◌or◌, get_elem?, first,
}
use zen_pm.Decimal.{to_text}
use zen_pm.Package.{Package}
use zen_pm.Package.Signature.{package_card_signature}
use Render.{View, render_package_card}

pub record Card : Type 0 where
  pub node : ℕ
  pub key : Text
  pub signature : Text
  pub shown : Package
  pub view : View

-- The children of the container, in order, the map `existing`, and the next free identity.
-- An entry of the map that was set to null is left out, since every reader treats the two alike;
-- the order of the entries only says in which order the last loop removes them.
pub record Container : Type 0 where
  pub children : List Card
  pub existing : List Card
  pub fresh : ℕ

-- `parentNode === container`
abbrev pub is_child : ℕ → List Card → Bool
is_child n [] = false
is_child n (c ∷ cs) = c.node == n || is_child n cs

-- `removeChild`
abbrev pub remove_child : ℕ → List Card → List Card
remove_child n [] = []
remove_child n (c ∷ cs) = if c.node == n then cs else c ∷ remove_child n cs

-- `replaceChild(card, old)`
abbrev pub replace_child : Card → ℕ → List Card → List Card
replace_child card old [] = []
replace_child card old (c ∷ cs) = if c.node == old then card ∷ cs else c ∷ replace_child card old cs

-- A new node in front of the child `n`.
abbrev pub place_before : Card → ℕ → List Card → List Card
place_before card n [] = []
place_before card n (c ∷ cs) = if c.node == n then card ∷ c ∷ cs else c ∷ place_before card n cs

-- `insertBefore(card, container.children[i] || null)` takes the card out of its place first.
abbrev pub insert_before : Card → Option Card → List Card → List Card
insert_before card none cs = remove_child card.node cs ++ card ∷ []
insert_before card (some c) cs = place_before card c.node (remove_child card.node cs)

-- The entry of `existing` under the key.
abbrev pub find_key : Text → List Card → Option Card
find_key k = first (λ c. c.key === k)

abbrev pub drop_key : Text → List Card → List Card
drop_key k [] = []
drop_key k (c ∷ cs) = let rest = drop_key k cs in if c.key === k then rest else c ∷ rest

-- The first loop: the last child with a key is kept for it.
unfoldable pub register : List Card → List Card → List Card
register existing [] = existing
register existing (c ∷ cs) =
    register (if truthy c.key then drop_key c.key existing ++ c ∷ [] else existing) cs

-- `String(pkg.id || pkg.name || i)`
unfoldable pub package_key : ℕ → Package → Text
package_key i pkg = pkg.id or (pkg.name or to_text i)

abbrev signed_as : Text → Card → Bool
signed_as sig card = card.signature === sig

abbrev is_node : Card → Option Card → Bool
is_node card none = false
is_node card (some c) = c.node == card.node

-- The last two tests of the loop's body.
unfoldable pub settle : ℕ → Card → List Card → List Card
settle i card children =
    let attached = if is_child card.node children then children else children ++ card ∷ [] in
    if is_node card (get_elem? attached i)
    then attached
    else insert_before card (get_elem? attached i) attached

-- The last loop removes what `existing` still holds, as far as it is in the container.
unfoldable pub remove_all : List Card → List Card → List Card
remove_all [] children = children
remove_all (card ∷ cards) children =
    remove_all cards
      (if is_child card.node children then remove_child card.node children else children)

module _ (lower : Text → Text) (path : Text) where
  unfoldable pub new_card : ℕ → Package → ℕ → Card
  unfolding package_key
  new_card i pkg node = record {
    node = node;
    key = package_key i pkg;
    signature = package_card_signature pkg;
    shown = pkg;
    view = render_package_card lower path pkg;
  }

  -- The card under the key is kept while its signature is the package's; otherwise a new card
  -- takes its place.
  unfoldable pub place : ℕ → Package → Option Card → Container → Container
  unfolding new_card settle
  place i pkg none c = record {
    children = settle i (new_card i pkg c.fresh) c.children;
    existing = drop_key (package_key i pkg) c.existing;
    fresh = suc c.fresh;
  }
  place i pkg (some card) c =
      if signed_as (package_card_signature pkg) card
      then record c {
        children = settle i card c.children;
        existing = drop_key (package_key i pkg) c.existing;
      }
      else (let card' = new_card i pkg c.fresh in
          record {
            children = settle i card' (
                if is_child card.node c.children
                then replace_child card' card.node c.children
                else c.children);
            existing = drop_key (package_key i pkg) c.existing;
            fresh = suc c.fresh;
          })

  -- The second loop, from index `i` on.
  unfoldable pub place_all : ℕ → List Package → Container → Container
  unfolding place
  place_all i [] c = c
  place_all i (pkg ∷ packages) c =
      place_all (suc i) packages (place i pkg (find_key (package_key i pkg) c.existing) c)

  unfoldable pub reconcile_package_cards : List Package → List Card → ℕ → List Card × ℕ
  unfolding place_all remove_all register
  reconcile_package_cards packages children fresh =
      let c =
        place_all 0 packages
          (record { children = children; existing = register [] children; fresh = fresh }) in
      (remove_all c.existing c.children, c.fresh)
