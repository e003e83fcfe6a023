-- ===== src/Details/Query.antt =====
-- packageDetailsURL (frontend/kindle/utils.js) against queryValue and findPackage
-- (frontend/kindle/pages/package-details/script.js).
use zen_pm.Prelude.{
  ℕ, ◌≡◌, ◌≢◌, refl, ap, ◌∙◌, List, [], ◌∷◌, ◌++◌, Option, some, false, Text, lit, ◌===◌, ===_iff,
  ===_refl, if◌then◌else◌, ◌or◌, All, arith, first,
}
use zen_pm.Strings.{split, drop}
use zen_pm.Strings.Laws.{Without, split-Without, split-append-cons}
use zen_pm.Package.{Package}
use zen_pm.Details.{
  match_pair, from_tab, details_search, query_parts, query_value, plus_to_space, find_package,
}

-- What encodeURIComponent and decodeURIComponent do to a text without lone surrogates: decoding
-- undoes encoding, and the encoded text has none of the characters "&", "=" and "+".
pub record IsEncoded (encode : Text → Text) (decode : Text → Option Text) (t : Text) : Type 0 where
  pub decoded : decode (encode t) ≡ some t
  pub no_ampersand : Without 38 (encode t)
  pub no_equals : Without 61 (encode t)
  pub no_plus : Without 43 (encode t)

plus_to_space-Without : (s : Text) → Without 43 s → plus_to_space s ≡ s
plus_to_space-Without [] h = refl
plus_to_space-Without (c ∷ s) (n, h) = ground (arith, plus_to_space-Without s h)

Without-append : (c : ℕ) (s t : Text) → Without c s → Without c t → Without c (s ++ t)
Without-append c [] t h k = k
Without-append c (d ∷ s) t (n, h) k = (n, Without-append c s t h k)

module _ (encode : Text → Text) (decode : Text → Option Text) where
  -- One part "name=value" of a query.
  pair_lem :
      (name value sought : Text) (later : Option Text)
      → decode name ≡ some name
      → IsEncoded encode decode value
      → match_pair decode sought (name ∷ encode value ∷ []) later
        ≡ (if name === sought then some value else later)
  unfolding match_pair
  pair_lem name value sought later d c =
      rw (match_pair, d, plus_to_space-Without (encode value) c.no_plus, c.decoded) refl

  split_pair :
      (name value : Text)
      → Without 61 name
      → IsEncoded encode decode value
      → split 61 (name ++ 61 ∷ encode value) ≡ name ∷ encode value ∷ []
  split_pair name value w c =
      split-append-cons 61 name (encode value) w
      ∙ ap (λ s. name ∷ s) (split-Without 61 (encode value) c.no_equals)

  pub part_lem :
      (name value sought : Text) (parts : List Text)
      → Without 61 name
      → decode name ≡ some name
      → IsEncoded encode decode value
      → query_parts decode sought ((name ++ 61 ∷ encode value) ∷ parts)
        ≡ (if name === sought then some value else query_parts decode sought parts)
  unfolding query_parts
  part_lem name value sought parts w d c =
      ap (λ pair. match_pair decode sought pair (query_parts decode sought parts))
        (split_pair name value w c)
      ∙ pair_lem name value sought (query_parts decode sought parts) d c

  search_parts :
      (path : Text) (pkg : Package)
      → IsEncoded encode decode (pkg.id or (pkg.name or []))
      → IsEncoded encode decode (from_tab path)
      → split 38 (drop 1 (details_search encode path pkg))
        ≡ (lit "id" ++ 61 ∷ encode (pkg.id or (pkg.name or [])))
          ∷ (lit "from" ++ 61 ∷ encode (from_tab path))
          ∷ []
  unfolding details_search lit drop
  search_parts path pkg k t =
      let id = pkg.id or (pkg.name or []) in
      split-append-cons 38 (lit "id" ++ 61 ∷ encode id) (lit "from" ++ 61 ∷ encode (from_tab path))
        ((λ e. omega arith), ((λ e. omega arith), ((λ e. omega arith), k.no_ampersand)))
      ∙ ap (λ s. (lit "id" ++ 61 ∷ encode id) ∷ s)
          (split-Without 38 (lit "from" ++ 61 ∷ encode (from_tab path)) (
            (λ e. omega arith),
            (
              (λ e. omega arith),
              ((λ e. omega arith), ((λ e. omega arith), ((λ e. omega arith), t.no_ampersand))),
            ),
          ))

  -- Where the names of the two parameters decode to themselves, and the key of the package (its id,
  -- else its name) and the tab are texts that decoding gives back from a code without "&", "=" and
  -- "+", the address of a package's page says which package it is for and from where it was opened.
  pub query_value-details_search :
      (path : Text) (pkg : Package)
      → decode (lit "id") ≡ some (lit "id")
      → decode (lit "from") ≡ some (lit "from")
      → IsEncoded encode decode (pkg.id or (pkg.name or []))
      → IsEncoded encode decode (from_tab path)
      → (query_value decode (lit "id") (details_search encode path pkg)
          ≡ some (pkg.id or (pkg.name or [])))
        × (query_value decode (lit "from") (details_search encode path pkg) ≡ some (from_tab path))
  unfolding query_value
  query_value-details_search path pkg i f k t = (
    ap (query_parts decode (lit "id")) (search_parts path pkg k t)
        ∙ (rw (===_refl (lit "id")) at
            (part_lem (lit "id") id (lit "id") (from_part ∷ []) no_equals_id i k)),
    ap (query_parts decode (lit "from")) (search_parts path pkg k t)
        ∙ ((rw id_ne_from at
              (part_lem (lit "id") id (lit "from") (from_part ∷ []) no_equals_id i k))
            ∙ (rw (===_refl (lit "from")) at
                (part_lem (lit "from") (from_tab path) (lit "from") [] no_equals_from f t))),
  )
    where
      id : Text
      id = pkg.id or (pkg.name or [])

      from_part : Text
      from_part = lit "from" ++ 61 ∷ encode (from_tab path)

      no_equals_id : Without 61 (lit "id")
      no_equals_id = unfold lit in ((λ e. omega arith), ((λ e. omega arith), tt))

      no_equals_from : Without 61 (lit "from")
      no_equals_from =
          unfold lit in
          ((λ e. omega arith), ((λ e. omega arith), ((λ e. omega arith), ((λ e. omega arith), tt))))

      id_ne_from : (lit "id" === lit "from") ≡ false
      id_ne_from = unfold lit ◌===◌ in refl

-- On that page, the package found is the one with the id in the address, where no package has that
-- id for its name: the first with the id among those that the daemon lists.
pub find_package-first :
    (id : Text) (packages : List Package)
    → All (λ q. q.name ≢ id) packages
    → find_package id packages ≡ first (λ p. p.id === id) packages
unfolding find_package
find_package-first id [] h = refl
find_package-first id (p ∷ packages) (n, h) =
    ground (arith, ===_iff p.name id, find_package-first id packages h)
