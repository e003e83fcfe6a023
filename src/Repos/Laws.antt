-- ===== src/Repos/Laws.antt =====
-- Lemmas on the names, icons and badges of a repository (frontend/kindle/utils.js).
use zen_pm.Prelude.{
  ◌≡◌, ◌↔◌, ◌⊎◌, ◌++◌, true, Text, lit, ===_iff, Bool-cases, inl, inr, ◌or◌, arith,
}
use mathlib.Core.List.{append_assoc}
use zen_pm.Package.{Package}
use zen_pm.Repos.{
  zenlabs_name, zenlabs_display, kindleforge_name, base_path, is_zenlabs_repo_name,
  repo_display_name, bundled_repo_icon, has_version, package_version_prefix_text,
  package_version_repo_text, package_repo_verified,
}

-- Showing the display name of a repository's display name changes nothing more.
pub repo_display_name_idem :
    (name : Text) → repo_display_name (repo_display_name name) ≡ repo_display_name name
unfolding repo_display_name is_zenlabs_repo_name
repo_display_name_idem name = ground (
  arith,
  ===_iff name zenlabs_name,
  ===_iff name zenlabs_display,
  ===_iff zenlabs_display zenlabs_display,
)

abbrev pub IsBundled : Text → Type 0
IsBundled repo = (repo ≡ zenlabs_name) ⊎ ((repo ≡ zenlabs_display) ⊎ (repo ≡ kindleforge_name))

-- A package is marked as verified exactly when its repository is a default one, its trust is
-- "trusted" or "signed", or its repository is ZenLabs, under either name, or KindleForge.
pub package_repo_verified_iff :
    (pkg : Package)
    → (package_repo_verified pkg ≡ true) ↔ (
        (pkg.repo_default ≡ true)
        ⊎ ((pkg.repo_trust ≡ lit "trusted")
            ⊎ ((pkg.repo_trust ≡ lit "signed") ⊎ IsBundled pkg.repo)))
unfolding package_repo_verified is_zenlabs_repo_name
package_repo_verified_iff pkg = ground (
  arith,
  ===_iff pkg.repo zenlabs_name,
  ===_iff pkg.repo zenlabs_display,
  ===_iff pkg.repo kindleforge_name,
  ===_iff pkg.repo_trust (lit "trusted"),
  ===_iff pkg.repo_trust (lit "signed"),
)

-- For a package of a repository other than ZenLabs and KindleForge the icon of its repository is shown whenever there is
-- one, a favicon too: the test of `isFaviconURL` changes nothing.
pub bundled_repo_icon-favicon :
    (lower : Text → Text) (path : Text) (pkg : Package)
    → ¬ IsBundled pkg.repo
    → bundled_repo_icon lower path pkg
      ≡ (pkg.repo_icon_url or (base_path path ++ lit "/assets/packages.svg"))
unfolding bundled_repo_icon is_zenlabs_repo_name
bundled_repo_icon-favicon lower path pkg h = ground (
  arith,
  ===_iff pkg.repo zenlabs_name,
  ===_iff pkg.repo zenlabs_display,
  ===_iff pkg.repo kindleforge_name,
)

-- The version and the repository, which a package card shows in two elements, are together the
-- text of `packageVersionRepoText`.
pub package_version_repo_text_split :
    (pkg : Package)
    → package_version_repo_text pkg
      ≡ package_version_prefix_text pkg ++ repo_display_name (pkg.repo or lit "?")
unfolding package_version_repo_text package_version_prefix_text
package_version_repo_text_split pkg = elim (Bool-cases (has_version pkg)) [
  | inl shown ↦ rw shown (simp append_assoc)
  | inr hidden ↦ rw hidden
]
