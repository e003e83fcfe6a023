-- ===== src/Scroll/Position.antt =====
-- goCard, savePosition and restorePosition of frontend/kindle/utils.js against currentCardIndex.
use zen_pm.Prelude.{
  Text, ℕ, ◌+◌, ◌-◌, ◌≤◌, ◌≡◌, refl, sym, ap, ◌∙◌, List, [], ◌∷◌, Option, none, some, Bool, true,
  false, inl, inr, ◌⊎◌, get_elem?, length, arith,
}
use zen_pm.Decimal.{to_text, parse_int, parse_int-to_text}
use zen_pm.Scroll.{
  Cell, Scroll, least, goal, go_card, last_above, or_first, current_card_index, save_position,
  restore_from, restore_position, rebuild, setup_card_scroll,
}
use zen_pm.Scroll.Found.{IsRising, get_elem?-lt, least_last, found_at, found_first, current_cases}

-- Going to a card and asking for the current one gives that card, if cards begin more than 10 pixels
-- apart and the browser scrolls within 10 pixels of it.
pub go_card-current_card_index :
    (s : Scroll) (k : ℕ) (c : Cell)
    → IsRising s.cards
    → s.found ≡ true
    → get_elem? s.cards k ≡ some c
    → c.offset_top ≤ s.max_top + 10
    → current_card_index (go_card k s) ≡ k
go_card-current_card_index s k c r f e l = by_cards s.cards r e
  where
    by_cards :
        (cs : List Cell)
        → IsRising cs
        → get_elem? cs k ≡ some c
        → current_card_index (go_card k (record s { cards = cs })) ≡ k
    by_cards [] r e = cc
    by_cards (d ∷ cs) r e =
        unfold go_card current_card_index in
        rw f (
          ap (λ i. or_first (last_above (least (goal i (d ∷ cs)) s.max_top + 10) 0 (d ∷ cs)))
            (least_last (length (d ∷ cs)) k (get_elem?-lt k (d ∷ cs) e))
          ∙ found_at s k (d ∷ cs) r e l)

reached :
    (top : ℕ) (d : Cell) (cs : List Cell) (k : ℕ) (s : Scroll)
    → IsRising (d ∷ cs)
    → (k ≡ 0) ⊎ ((c : Cell) × (get_elem? (d ∷ cs) k ≡ some c) × (c.offset_top ≤ top + 10))
    → top ≤ s.max_top
    → or_first (
        last_above
          (least (goal (least (length (d ∷ cs) - 1) k) (d ∷ cs)) s.max_top + 10)
          0
          (d ∷ cs))
      ≡ k
reached top d cs k s r (inl e) l =
    ap (λ i. or_first (last_above (least (goal i (d ∷ cs)) s.max_top + 10) 0 (d ∷ cs)))
      (let z : least (length (d ∷ cs) - 1) k ≡ 0 = ground (arith, e) in z)
    ∙ (found_first s (d ∷ cs) r ∙ sym e)
reached top d cs k s r (inr (c, e, h)) l =
    ap (λ i. or_first (last_above (least (goal i (d ∷ cs)) s.max_top + 10) 0 (d ∷ cs)))
      (least_last (length (d ∷ cs)) k (get_elem?-lt k (d ∷ cs) e))
    ∙ found_at s k (d ∷ cs) r e (omega arith)

-- With no cards, whatever is stored, there is nothing to go to.
index_empty : (s : Scroll) → current_card_index (record s { cards = [] }) ≡ 0
index_empty s = by_found s.found
  where
    by_found : (b : Bool) → current_card_index (record s { cards = []; found = b }) ≡ 0
    by_found true = unfold current_card_index in refl
    by_found false = unfold current_card_index in refl

restore_from_empty :
    (s : Scroll) (i : Option ℕ) → current_card_index (restore_from i (record s { cards = [] })) ≡ 0
unfolding restore_from go_card
restore_from_empty s none = index_empty (record s { saved = none })
restore_from_empty s (some i) = index_empty (record s { saved = none })

restore_position_empty :
    (s : Scroll) (saved : Option Text)
    → current_card_index (restore_position (record s { cards = []; saved = saved })) ≡ 0
unfolding restore_position
restore_position_empty s none = index_empty (record s { saved = none })
restore_position_empty s (some text) =
    restore_from_empty (record s { saved = some text }) (parse_int text)

-- The page as it is before the position is restored.
abbrev shown_again : Scroll → List Cell → Option Text → Scroll
shown_again s cs saved = record s {
  cards = cs;
  index = 0;
  found = true;
  scroll_top = 0;
  guarded = true;
  suppress_until = 0;
  saved = saved;
}

restored :
    (s : Scroll) (d : Cell) (cs : List Cell)
    → IsRising (d ∷ cs)
    → (saved : Option Text) (k : ℕ)
    → (k ≡ 0) ⊎ ((c : Cell) × (get_elem? (d ∷ cs) k ≡ some c) × (c.offset_top ≤ s.scroll_top + 10))
    → s.scroll_top ≤ s.max_top
    → current_card_index (restore_from (some k) (shown_again s (d ∷ cs) saved)) ≡ k
unfolding restore_from go_card current_card_index
restored s d cs r saved k h l = reached s.scroll_top d cs k s r h l

-- Saving the position, leaving the page, opening it again with the same cards and restoring the
-- position leads back to the card that was current, if the cards begin more than 10 pixels apart,
-- there is an element that scrolls, and it was no further than the browser lets it.
pub restore_position-setup_card_scroll :
    (s : Scroll)
    → IsRising s.cards
    → s.found ≡ true
    → s.scroll_top ≤ s.max_top
    → current_card_index
        (restore_position (rebuild s.cards true (setup_card_scroll (save_position s))))
      ≡ current_card_index s
unfolding save_position restore_position current_card_index rebuild setup_card_scroll
restore_position-setup_card_scroll s r f l = by_cards s.cards r
  where
    by_cards :
        (cs : List Cell)
        → IsRising cs
        → current_card_index (
            restore_position
              (rebuild cs true (setup_card_scroll (save_position (record s { cards = cs })))))
          ≡ current_card_index (record s { cards = cs })
    by_cards [] r = restore_position_empty (shown_again s [] s.saved) s.saved ∙ sym (index_empty s)
    by_cards (d ∷ cs) r =
        let k = current_card_index (record s { cards = d ∷ cs }) in
        ap (λ o. current_card_index (restore_from o (shown_again s (d ∷ cs) (some (to_text k)))))
          (parse_int-to_text k)
        ∙ restored s d cs r (some (to_text k)) k (rw f (current_cases (s.scroll_top + 10) (d ∷ cs)))
            l
