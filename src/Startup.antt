-- ===== src/Startup.antt =====
-- How a page of frontend/kindle/pages starts: by `ongo`, which the Kindle's framework calls, and by a
-- timer that fires once, in either order; `ongo` may come again. What the pages differ in is a
-- `Startup`. An error that setupChrome throws is caught and logged.
pub mod Once
use zen_pm.Prelude.{List, [], ◌∷◌, ◌++◌, Bool, true, false, ◌&&◌, Text, lit, if◌then◌else◌}

pub record Startup : Type 0 where
  pub title : Text  -- that setupChrome sets
  pub guards_chrome : Bool  -- whether trySetupChrome calls it, so that it runs once
  pub chrome_at_once : Bool  -- whether the timer sets it up too

pub data Call : Type 0 where
  setup_chrome : (title : Text) → Call
  init_page : Call

-- _chromeSetup, _inited, and the calls that the page has made
pub record Started : Type 0 where
  pub chrome_setup : Bool
  pub inited : Bool
  pub calls : List Call

pub data Signal : Type 0 where
  ongo timeout : Signal

module _ (cfg : Startup) where
  unfoldable pub try_setup_chrome : Started → Started
  try_setup_chrome s =
      if cfg.guards_chrome && s.chrome_setup
      then s
      else record s { chrome_setup = true; calls = s.calls ++ setup_chrome cfg.title ∷ [] }

  unfoldable pub init : Started → Started
  init s = if s.inited then s else record s { inited = true; calls = s.calls ++ init_page ∷ [] }

  -- what comes before `init`
  unfoldable pub prepare : Signal → Started → Started
  unfolding try_setup_chrome
  prepare ongo s = try_setup_chrome s
  prepare timeout s = if cfg.chrome_at_once then try_setup_chrome s else s

  unfoldable pub on_signal : Signal → Started → Started
  unfolding prepare init
  on_signal x s = init (prepare x s)

  unfoldable pub run : List Signal → Started → Started
  unfolding on_signal
  run [] s = s
  run (x ∷ signals) s = run signals (on_signal x s)

  -- The calls of a page that has just been loaded.
  unfoldable pub start : List Signal → List Call
  unfolding run
  start signals = (run signals (record { chrome_setup = false; inited = false; calls = [] })).calls

-- The pages.
abbrev pub discover_page : Startup
discover_page = record {
  title = lit "ZenPM - Discover";
  guards_chrome = false;
  chrome_at_once = false;
}

abbrev pub installed_page : Startup
installed_page = record {
  title = lit "ZenPM - Installed";
  guards_chrome = true;
  chrome_at_once = true;
}

abbrev pub sources_page : Startup
sources_page = record { title = lit "ZenPM - Sources"; guards_chrome = true; chrome_at_once = true }

abbrev pub source_details_page : Startup
source_details_page = record {
  title = lit "ZenPM - Source Details";
  guards_chrome = true;
  chrome_at_once = true;
}

abbrev pub package_details_page : Startup
package_details_page = record {
  title = lit "ZenPM - Package Details";
  guards_chrome = true;
  chrome_at_once = true;
}

abbrev pub debug_page : Startup
debug_page = record { title = lit "ZenPM - Debug"; guards_chrome = true; chrome_at_once = true }
