-- ===== src/Cards/Render.antt =====
-- `renderPackageCard` of frontend/kindle/utils.js: what the card of a package displays. The
-- elements are named by their class; the layout of the boxes around them is left out.
use zen_pm.Prelude.{Text, lit, Bool, if◌then◌else◌, ◌or◌}
use zen_pm.Package.{Package}
use zen_pm.Repos.{
  first_package_image, bundled_repo_icon, package_version_prefix_text, repo_display_name,
  package_repo_verification_icon, package_repo_verification_label,
}

pub record View : Type 0 where
  pub action_class : Text
  pub action_label : Text
  pub image : Text
  pub image_fallback : Text
  pub title : Text
  pub description : Text
  pub meta : Text
  pub repo_name : Text
  pub verify_src : Text
  pub verify_alt : Text
  pub check : Bool

unfoldable pub render_package_card : (Text → Text) → Text → Package → View
render_package_card lower path pkg = record {
  action_class = if pkg.installed then lit "package-action modify" else lit "package-action";
  action_label = if pkg.installed then lit "Modify" else lit "Get";
  image = first_package_image lower path pkg;
  image_fallback = bundled_repo_icon lower path pkg;
  title = pkg.name;
  description = pkg.description or lit "No description";
  meta = package_version_prefix_text pkg;
  repo_name = repo_display_name (pkg.repo or lit "?");
  verify_src = package_repo_verification_icon path pkg;
  verify_alt = package_repo_verification_label pkg;
  check = pkg.installed;
}
