-- ===== src/Repos.antt =====
-- How frontend/kindle/utils.js names a repository, picks its icon and says whether it is verified.
-- `path` is window.location.pathname. `lower` is String.prototype.toLowerCase, whose tables are not
-- in the repository.
pub mod Laws
use zen_pm.Prelude.{
  ℕ, ◌-◌, ◌≡◌, List, [], ◌∷◌, ◌++◌, Option, none, some, Bool, true, false, ◌&&◌, ◌||◌, not, Text,
  lit, ◌===◌, ◌==◌, leb, if◌then◌else◌, truthy, ◌or◌, length,
}
use zen_pm.Strings.{contains, last_index_of, trim_right_slashes, strip_v}
use zen_pm.Package.{Package}

-- A source as the daemon reports it in GET /repos.
pub record Repo : Type 0 where
  pub name : Text
  pub url : Text
  pub icon_url : Text
  pub trust : Text
  pub is_default : Bool

unfoldable pub zenlabs_name : Text
unfolding lit
zenlabs_name = lit "ZenLabs"

unfoldable pub zenlabs_display : Text
unfolding lit
zenlabs_display = lit "ZenLabs Repo"

unfoldable pub kindleforge_name : Text
unfolding lit
kindleforge_name = lit "KindleForge"

unfoldable pub base_path : Text → Text
base_path path = if contains (lit "/pages/") path then lit "../.." else lit "."

unfoldable pub is_zenlabs_repo_name : Text → Bool
is_zenlabs_repo_name name = name === zenlabs_name || name === zenlabs_display

unfoldable pub repo_display_name : Text → Text
repo_display_name name = if is_zenlabs_repo_name name then zenlabs_display else name

-- Whether an index that may be missing, for -1, is the number `n`.
abbrev at : Option ℕ → ℕ → Bool
at none n = false
at (some i) n = i == n

abbrev ends_in_ico : Text → Bool
ends_in_ico value = leb 4 (length value) && at (last_index_of (lit ".ico") value) (length value - 4)

unfoldable pub is_favicon_url : (Text → Text) → Text → Bool
is_favicon_url lower value =
    let value = lower value in contains (lit "favicon") value || ends_in_ico value

unfoldable pub repo_icon_url : Text → Repo → Text → Text
repo_icon_url path repo fallback =
    if is_zenlabs_repo_name repo.name
    then base_path path ++ lit "/assets/zen.svg"
    else if repo.name === kindleforge_name
    then base_path path ++ lit "/assets/kindleforge.svg"
    else if truthy repo.url
    then trim_right_slashes repo.url ++ lit "/favicon.svg"
    else if truthy repo.icon_url
    then repo.icon_url
    else (fallback or (base_path path ++ lit "/assets/sources.svg"))

unfoldable pub bundled_repo_icon : (Text → Text) → Text → Package → Text
bundled_repo_icon lower path pkg =
    if is_zenlabs_repo_name pkg.repo
    then base_path path ++ lit "/assets/zen.svg"
    else if pkg.repo === kindleforge_name
    then base_path path ++ lit "/assets/kindleforge.svg"
    else if truthy pkg.repo_icon_url && not (is_favicon_url lower pkg.repo_icon_url)
    then pkg.repo_icon_url
    else if truthy pkg.repo_icon_url
    then pkg.repo_icon_url
    else base_path path ++ lit "/assets/packages.svg"

-- `images[0]`, or nothing.
abbrev first_image : List Text → Option Text
first_image [] = none
first_image (image ∷ rest) = some image

abbrev image_or : Option Text → Text → Text
image_or none rest = rest
image_or (some image) rest = image

unfoldable pub first_package_image : (Text → Text) → Text → Package → Text
first_package_image lower path pkg =
    if is_zenlabs_repo_name pkg.repo || pkg.repo === kindleforge_name
    then bundled_repo_icon lower path pkg
    else if truthy pkg.icon_url
    then pkg.icon_url
    else if truthy pkg.icon
    then pkg.icon
    else if truthy pkg.image_url
    then pkg.image_url
    else image_or (first_image pkg.images)
        (if truthy pkg.image then pkg.image else bundled_repo_icon lower path pkg)

abbrev pub has_version : Package → Bool
has_version pkg = truthy pkg.version && not (pkg.version === lit "0.0.0")

unfoldable pub package_version_prefix_text : Package → Text
package_version_prefix_text pkg =
    if has_version pkg then lit "v" ++ (strip_v pkg.version ++ lit " • ") else []

unfoldable pub package_version_repo_text : Package → Text
package_version_repo_text pkg =
    let repo_display = repo_display_name (pkg.repo or lit "?") in
    if has_version pkg
    then lit "v" ++ (strip_v pkg.version ++ (lit " • " ++ repo_display))
    else repo_display

unfoldable pub package_repo_verified : Package → Bool
package_repo_verified pkg =
    pkg.repo_default
    || pkg.repo_trust === lit "trusted"
    || pkg.repo_trust === lit "signed"
    || is_zenlabs_repo_name pkg.repo
    || pkg.repo === kindleforge_name

unfoldable pub package_repo_verification_icon : Text → Package → Text
package_repo_verification_icon path pkg =
    base_path path
    ++ (if package_repo_verified pkg
        then lit "/assets/verified.svg"
        else lit "/assets/unverified.svg")

unfoldable pub package_repo_verification_label : Package → Text
package_repo_verification_label pkg =
    if package_repo_verified pkg then lit "Verified" else lit "Unverified"
