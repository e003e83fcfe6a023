-- ===== src/Tests/Samples.antt =====
-- Packages, pages and events that the tests run on.
use zen_pm.Prelude.{◌+◌, List, [], ◌∷◌, map, Bool, true, false, ◌&&◌, Text, lit, leb, if◌then◌else◌}
use zen_pm.Package.{Package}
use zen_pm.Session.{Event, click, accept, dismiss, settle, healthy, loaded, auto, accepted, done}

-- What `toLowerCase` does to the letters of ASCII.
abbrev pub lower : Text → Text
lower = map (λ c. if leb 65 c && leb c 90 then c + 32 else c)

-- What `encodeURIComponent` does to a text of letters and digits.
abbrev pub encode : Text → Text
encode t = t

abbrev pub search_path : Text
search_path = lit "/pages/search/index.html"

abbrev pub sample : Text → Text → Bool → Package
sample id name installed = record {
  id = id;
  name = name;
  repo = lit "Shelf";
  version = lit "1.2.0";
  description = [];
  author = lit "A";
  icon_url = [];
  icon = [];
  image_url = [];
  images = [];
  image = [];
  repo_icon_url = lit "/favicon.svg";
  repo_trust = lit "signed";
  repo_default = false;
  featured = false;
  featured_image = [];
  installed = installed;
  tags = [];
}

abbrev pub clock : Package
clock = sample (lit "clock") (lit "Clock") false

abbrev pub installed_clock : Package
installed_clock = sample (lit "clock") (lit "Clock") true

abbrev pub reader : Package
reader = sample (lit "reader") (lit "Reader") true

-- The page connects and lists two packages.
abbrev pub connect : List Event
connect = settle 0 (healthy true) ∷ settle 0 (loaded (clock ∷ reader ∷ [])) ∷ []

-- Then the first is asked for, and its download is under way.
abbrev pub ask : List Event
ask =
    settle 0 (healthy true)
    ∷ settle 0 (loaded (clock ∷ reader ∷ []))
    ∷ click clock
    ∷ accept
    ∷ settle 0 (auto [])
    ∷ settle 0 (accepted (lit "7"))
    ∷ []

-- Then it is installed, and the box that says so is closed.
abbrev pub install_clock : List Event
install_clock =
    settle 0 (healthy true)
    ∷ settle 0 (loaded (clock ∷ reader ∷ []))
    ∷ click clock
    ∷ accept
    ∷ settle 0 (auto [])
    ∷ settle 0 (accepted (lit "7"))
    ∷ settle 0 done
    ∷ settle 0 done
    ∷ settle 0 (loaded (installed_clock ∷ reader ∷ []))
    ∷ dismiss
    ∷ []
