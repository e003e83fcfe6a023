-- ===== src/Tests/Scrolling.antt =====
-- Runs of the scrolling of a list.
use zen_pm.Prelude.{ℕ, ◌≡◌, refl, [], ◌∷◌, none, true, false, arith}
use zen_pm.Scroll.{
  Cell, Scroll, current_card_index, cards_per_page, on_wheel, passes_click, rebuild,
  setup_card_scroll, down, save_position, restore_position,
}
use zen_pm.Scroll.Found.{IsRising}
use zen_pm.Scroll.Position.{restore_position-setup_card_scroll}

abbrev cell : ℕ → Cell
cell top = record { offset_top = top; height = 100 }

abbrev list : Scroll
list = record {
  cards = cell 0 ∷ cell 110 ∷ cell 220 ∷ cell 330 ∷ [];
  index = 0;
  found = true;
  scroll_top = 112;
  client_height = 250;
  max_top = 215;
  guarded = true;
  suppress_until = 0;
  saved = none;
}

list-IsRising : IsRising list.cards
list-IsRising = ground arith

page_of_list : cards_per_page true 1 list ≡ 2
unfolding cards_per_page
page_of_list = refl

wheel_down : current_card_index (on_wheel true 5000 down list) ≡ 2
unfolding on_wheel
wheel_down = refl

held_back : passes_click 5600 (on_wheel true 5000 down list) ≡ false
unfolding passes_click on_wheel
held_back = refl

opened_again :
    rebuild list.cards true (record list { cards = []; found = false; guarded = false }) ≡ list
unfolding rebuild
opened_again = refl

restore_position-setup_card_scroll_example :
    current_card_index
      (restore_position (rebuild list.cards true (setup_card_scroll (save_position list))))
    ≡ current_card_index list
restore_position-setup_card_scroll_example =
    restore_position-setup_card_scroll list list-IsRising refl (omega arith)
