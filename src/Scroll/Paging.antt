-- ===== src/Scroll/Paging.antt =====
-- Paging through the cards by the wheel: cardsPerPage and the listener of "mousewheel" of
-- setupCardScroll (frontend/kindle/utils.js).
use zen_pm.Scroll.{Scroll}
