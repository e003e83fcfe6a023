-- ===== src/Scroll.antt =====
-- Scrolling a list card by card: setupCardScroll of frontend/kindle/utils.js. The element that
-- scrolls is its position, the height that is seen and the furthest position that the browser sets
-- it to; sessionStorage is the text stored for the page. Times are in milliseconds.
pub mod Found
pub mod Position
pub mod Paging
use zen_pm.Prelude.{
  ℕ, zero, suc, ◌+◌, ◌-◌, List, [], ◌∷◌, Option, none, some, Bool, true, false, ◌||◌, ◌&&◌, not,
  Text, ltb, leb, if◌then◌else◌, get_elem?, length,
}
use zen_pm.Decimal.{to_text, parse_int}

-- offsetTop and offsetHeight of a card
pub record Cell : Type 0 where
  pub offset_top : ℕ
  pub height : ℕ

-- `found` is whether there is an element that scrolls, `guarded` whether its clicks go through the
-- guard, and `suppress_until` the time before which that holds them back.
pub record Scroll : Type 0 where
  pub cards : List Cell
  pub index : ℕ
  pub found : Bool
  pub scroll_top : ℕ
  pub client_height : ℕ
  pub max_top : ℕ
  pub guarded : Bool
  pub suppress_until : ℕ
  pub saved : Option Text

-- A page that is opened, with what was stored for it before.
unfoldable pub setup_card_scroll : Scroll → Scroll
setup_card_scroll s = record s {
  cards = [];
  index = 0;
  found = false;
  scroll_top = 0;
  guarded = false;
  suppress_until = 0;
}

unfoldable pub suppress_clicks : ℕ → ℕ → Scroll → Scroll
suppress_clicks ms now s = record s { suppress_until = now + ms }

unfoldable pub install_click_guard : Scroll → Scroll
install_click_guard s = if s.guarded || not s.found then s else record s { guarded = true }

-- Whether a click on the list at the time `now` comes through to its cards.
unfoldable pub passes_click : ℕ → Scroll → Bool
passes_click now s = not (s.guarded && ltb now s.suppress_until)

-- `elems` are the cards of the document, and `there` is whether it has the element that scrolls.
unfoldable pub rebuild : List Cell → Bool → Scroll → Scroll
unfolding install_click_guard
rebuild elems there s = install_click_guard (record s { cards = elems; found = s.found || there })

abbrev pub least : ℕ → ℕ → ℕ
least a b = if leb a b then a else b

abbrev pub most : ℕ → ℕ → ℕ
most a b = if leb a b then b else a

abbrev pub offset_of : Option Cell → ℕ
offset_of none = 0
offset_of (some c) = c.offset_top

-- `scrollEl.scrollTop = top`
abbrev pub scroll_to : ℕ → Scroll → Scroll
scroll_to top s = record s { scroll_top = least top s.max_top }

abbrev pub goal : ℕ → List Cell → ℕ
goal zero cards = 0
goal (suc k) cards = offset_of (get_elem? cards (suc k))

-- An index below 0 is 0 here, which `Math.max` makes of it.
unfoldable pub go_card : ℕ → Scroll → Scroll
go_card i s = elim s.cards [
  | [] ↦ s
  | _ ∷ _ ↦
      (let k = least (length s.cards - 1) i in
        if s.found
        then scroll_to (goal k s.cards) (record s { index = k })
        else record s { index = k })
]

-- The last card, counted from `i`, that begins no lower than `bottom`.
abbrev pub last_above : ℕ → ℕ → List Cell → Option ℕ
last_above bottom i [] = none
last_above bottom i (c ∷ cs) = elim (last_above bottom (suc i) cs) [
  | some j ↦ some j
  | none ↦ if leb c.offset_top bottom then some i else none
]

abbrev pub or_first : Option ℕ → ℕ
or_first none = 0
or_first (some i) = i

unfoldable pub current_card_index : Scroll → ℕ
current_card_index s = if s.found then or_first (last_above (s.scroll_top + 10) 0 s.cards) else 0

-- How many of the cards in a row end no lower than `bottom`.
abbrev pub count_above : ℕ → List Cell → ℕ
count_above bottom [] = 0
count_above bottom (c ∷ cs) =
    let more = count_above bottom cs in if leb (c.offset_top + c.height) bottom then suc more else 0

abbrev pub from : ℕ → List Cell → List Cell
from zero cards = cards
from (suc n) [] = []
from (suc n) (c ∷ cards) = from n cards

unfoldable pub cards_per_page : Bool → ℕ → Scroll → ℕ
cards_per_page page_sized start s =
    if not page_sized || not s.found then 1 else elim (from start s.cards) [
      | [] ↦ 1
      | c ∷ cs ↦ most 1 (count_above (c.offset_top + s.client_height) (c ∷ cs))
    ]

pub data Wheel : Type 0 where
  up down sideways : Wheel

unfoldable pub turn : Bool → Wheel → Scroll → Scroll
unfolding go_card current_card_index cards_per_page
turn page_sized up s =
    let cur = current_card_index s in go_card (cur - cards_per_page page_sized cur s) s
turn page_sized down s =
    let cur = current_card_index s in go_card (cur + cards_per_page page_sized cur s) s
turn page_sized sideways s = s

-- the listener of "mousewheel", at the time `now`
unfoldable pub on_wheel : Bool → ℕ → Wheel → Scroll → Scroll
unfolding suppress_clicks turn
on_wheel page_sized now wheel s = elim s.cards [
  | [] ↦ s
  | _ ∷ _ ↦ turn page_sized wheel (suppress_clicks 700 now s)
]

unfoldable pub save_position : Scroll → Scroll
unfolding current_card_index
save_position s = elim s.cards [
  | [] ↦ s
  | _ ∷ _ ↦ record s { saved = some (to_text (current_card_index s)) }
]

-- What is stored leads to its card, and is forgotten. Where it is no number, `goCard` sets `cIndex`,
-- which nothing reads, to NaN, and reading `cards[NaN].offsetTop` throws an error that is caught,
-- unless there are no cards or nothing scrolls.
unfoldable pub restore_from : Option ℕ → Scroll → Scroll
unfolding go_card
restore_from none s = elim s.cards [
  | [] ↦ record s { saved = none }
  | _ ∷ _ ↦ if s.found then s else record s { saved = none }
]
restore_from (some i) s = record (go_card i s) { saved = none }

unfoldable pub restore_position : Scroll → Scroll
unfolding restore_from
restore_position s = elim s.saved [ none ↦ s | some text ↦ restore_from (parse_int text) s ]
