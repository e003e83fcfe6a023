-- ===== src/Lib.antt =====
-- ZenPM's Kindle frontend: the pages under frontend/kindle that list packages, install, reinstall
-- and remove them through the daemon's HTTP interface, and the shared frontend/kindle/utils.js.
--
-- Parts:
--   Package, Package/Signature  a package as GET /packages reports it; packageCardSignature
--   Repos          names, icons, trust and version texts of a repository (utils.js)
--   Cards, Cards/Render   renderPackageCard and reconcilePackageCards (utils.js): the container's
--                  children are a list of cards, an element's identity is a number
--   Cards/Media    renderMediaCard (utils.js), as the rows of the page "Sources" use it
--   Requests       fetchJSON, fetchText and isPackageActionRequest (utils.js); Json, the values of
--                  JSON.parse
--   Operation      waitForPackageOperation (utils.js)
--   Images         cacheBustPackageImage and setImageWithFallback (utils.js)
--   Scroll         setupCardScroll (utils.js)
--   Boxes          showBaseModal and the boxes that are made with it (utils.js)
--   Menu           renderNavbar, the updates, the preference for beta updates and the About box;
--                  Menu/System, the system menu that setupPageChrome sets up (utils.js)
--   Startup        how each page starts: init, trySetupChrome and the handler `ongo`, read off
--                  pages/debug/log.js
--   Session        the state and handlers of a page that lists or shows packages, of which four
--                  scripts have a copy each, read off frontend/kindle/pages/search/script.js:
--                  Session/Actions up to the request, Session/Loop the callbacks, Session/Events the
--                  user's events and the event loop; Session/Page is what the pages differ in, and
--                  Session/Loading one load of a page with nothing else in between
--   Listing        what "Discover" and "Installed" list, and how they load and draw it
--   Search         the page "Discover" (pages/search/script.js)
--   Installed      the page "Installed" (pages/installed/installed.js), whose handlers are a copy
--   SourceDetails  the page of one source (pages/source-details/script.js)
--   Details        packageDetailsURL (utils.js), and queryValue, findPackage and the completion from
--                  the manifest (pages/package-details/script.js); Details/Page is the page of one
--                  package as an instance of Session
--   Sources        addSource as one chain of requests (pages/sources/sources.js); Sources/Page is
--                  the page "Sources", where its requests are tasks among other events
--   Loads          that the loads of the four pages of Session end
--   Log            the page "Debug" (pages/debug/log.js)
--   Strings, Decimal   what the code uses of JavaScript's strings and numbers
--   Prelude        shared names, tests and lemmas; Tests, concrete runs
--
-- Interaction: a page keeps a Session, with a part of its own (the list, the source or the package
-- that it shows). The user's events and the settling of the promises and timers in flight (Task)
-- change it, in any order. How a page loads is a chain of requests with what to do when each
-- settles (Session.Page); the pages with lists draw them by reconcile_package_cards. The promise of
-- waitForPackageOperation is one task of the page (wait_op): Operation models its inside, over the
-- responses that Requests reads. What the buttons of a box do to a page is an event of Session,
-- which Boxes names.
--
-- Parameters: `lower` is String.prototype.toLowerCase, `encode` and `decode` are encodeURIComponent
-- and decodeURIComponent, `parse` is JSON.parse and `show` is String of a parsed value, `resolve` is
-- how the browser completes an address, `path` is window.location.pathname, `thrown` and
-- `show_error` are the messages of the errors that the browser raises itself; all are the browser's.
-- `token` is packageImageRefreshToken, and `package_id` and `source_name` are read from the page's
-- address when it opens.
--
-- Bounds: wait_for_package_operation runs on 360 units of fuel, one for each request that the code
-- makes at most; to_text has one more than its number, which is more than the digits. A load of a
-- page makes one request after another: load_from has one unit of fuel for each of a chain of one,
-- two or three, which Loads shows to be enough. The chain of addSource has three requests, for
-- which follow has 3 units. All other functions are structural. The retries of a page (8 for the
-- connection, 20 rounds of polling) are counters of its state, as in the code.
--
-- Simplifications: a field of a package that the report leaves out is the empty text, `false` or
-- the empty list, since the code reads it through its truth value. A text is a list of UTF-16 code
-- units. Of a page `busy`, the hint, the heading and the open box are state; styles, delays, log
-- messages and, there, the position of scrolling are left out.
--
-- Not modelled: the layout of boxes and bars, the messages that the scripts send to the log, the
-- length of delays, and what the handlers of window.onerror write into a hint.
-- Besides, polyfill.js, which is third-party; the home page, whose script stands in its markup; the
-- daemon (Go), the KOReader plugin (Lua), the Android application (Java), and the build.
pub mod Prelude
pub mod Strings
pub mod Decimal
pub mod Json
pub mod Package
pub mod Repos
pub mod Cards
pub mod Operation
pub mod Requests
pub mod Session
pub mod Images
pub mod Details
pub mod Scroll
pub mod Sources
pub mod Startup
pub mod Listing
pub mod Search
pub mod Installed
pub mod SourceDetails
pub mod Boxes
pub mod Loads
pub mod Log
pub mod Menu
pub mod Tests
