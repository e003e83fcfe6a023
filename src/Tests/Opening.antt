-- ===== src/Tests/Opening.antt =====
-- Runs of the page of one package, and of the images.
use zen_pm.Prelude.{◌≡◌, refl, [], ◌∷◌, Option, some, false, Text, lit, arith}
use zen_pm.Strings.{contains}
use zen_pm.Repos.{Repo}
use zen_pm.Images.{Img, on_error}
use zen_pm.Images.Laws.{on_error_settles}
use zen_pm.Details.{query_value, details_search, from_tab, enrich_package}
use zen_pm.Details.Query.{IsEncoded, query_value-details_search}
use zen_pm.Details.Enrich.{SamePackage, enrich_package-SamePackage}
use zen_pm.Tests.Samples.{encode, search_path, clock}

-- What `decodeURIComponent` does to a text of letters and digits.
abbrev pub decode : Text → Option Text
decode t = some t

pub clock-IsEncoded : IsEncoded encode decode (lit "clock")
unfolding lit
clock-IsEncoded = record {
  decoded = refl;
  no_ampersand = (
    (λ e. omega arith),
    ((λ e. omega arith), ((λ e. omega arith), ((λ e. omega arith), ((λ e. omega arith), tt)))),
  );
  no_equals = (
    (λ e. omega arith),
    ((λ e. omega arith), ((λ e. omega arith), ((λ e. omega arith), ((λ e. omega arith), tt)))),
  );
  no_plus = (
    (λ e. omega arith),
    ((λ e. omega arith), ((λ e. omega arith), ((λ e. omega arith), ((λ e. omega arith), tt)))),
  );
}

search-IsEncoded : IsEncoded encode decode (from_tab search_path)
unfolding lit from_tab contains
search-IsEncoded = record {
  decoded = refl;
  no_ampersand = (
    (λ e. omega arith),
    (
      (λ e. omega arith),
      ((λ e. omega arith), ((λ e. omega arith), ((λ e. omega arith), ((λ e. omega arith), tt)))),
    ),
  );
  no_equals = (
    (λ e. omega arith),
    (
      (λ e. omega arith),
      ((λ e. omega arith), ((λ e. omega arith), ((λ e. omega arith), ((λ e. omega arith), tt)))),
    ),
  );
  no_plus = (
    (λ e. omega arith),
    (
      (λ e. omega arith),
      ((λ e. omega arith), ((λ e. omega arith), ((λ e. omega arith), ((λ e. omega arith), tt)))),
    ),
  );
}

query_value-details_search_example :
    (query_value decode (lit "id") (details_search encode search_path clock) ≡ some (lit "clock"))
    × (query_value decode (lit "from") (details_search encode search_path clock)
        ≡ some (from_tab search_path))
unfolding lit
query_value-details_search_example =
    query_value-details_search encode decode search_path clock refl refl clock-IsEncoded
      search-IsEncoded

abbrev shelf : Repo
shelf = record {
  name = lit "Shelf";
  url = lit "https://shelf/";
  icon_url = [];
  trust = lit "signed";
  is_default = false;
}

enrich_package-SamePackage_example :
    SamePackage
      (enrich_package [] clock
        (some (shelf ∷ []))
        (λ url. some (record clock { name = lit "Big clock" } ∷ [])))
      clock
enrich_package-SamePackage_example =
    enrich_package-SamePackage [] clock (some (shelf ∷ []))
      (λ url. some (record clock { name = lit "Big clock" } ∷ []))

-- An image whose own address and whose fallback both fail.
abbrev broken : Img
broken = record { src = lit "/favicon.svg"; tried_primary = false; tried_ico = false }

abbrev fail : Img → Img
fail = on_error (λ src. src) [] (lit "/assets/packages.svg")

on_error_settles_example : fail (fail (fail broken)) ≡ fail (fail broken)
on_error_settles_example = on_error_settles (λ src. src) [] (lit "/assets/packages.svg") broken
