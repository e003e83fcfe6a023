-- ===== src/Boxes.antt =====
-- The boxes over a page: showBaseModal and what showModal, showConfirmModal,
-- showPackageActionConfirm, showPackageModifyModal and choosePackageAsset of
-- frontend/kindle/utils.js have it display. A button is its label and the event of the page that a
-- tap on it is; every box also has a cross, and a tap beside it closes it, which is the event
-- `dismiss`.
pub mod Buttons
use zen_pm.Prelude.{
  ℕ, suc, List, [], ◌∷◌, ◌++◌, Bool, true, false, Text, lit, if◌then◌else◌, truthy,
}
use zen_pm.Package.{Package}
use zen_pm.Session.{
  Action, install, reinstall, uninstall, Asset, Modal, notice, modify, confirm, choose, Event,
  dismiss, accept, pick_info, pick_reinstall, pick_uninstall, pick,
}

pub record Button : Type 0 where
  pub label : Text
  pub primary : Bool
  pub danger : Bool
  pub does : Event

pub record Box : Type 0 where
  pub title : Text
  pub message : Text
  pub class_name : Text
  pub box_class_name : Text
  pub buttons : List Button

abbrev plain : Text → Event → Button
plain label does = record { label = label; primary = false; danger = false; does = does }

unfoldable pub confirm_title : Action → Text
confirm_title install = lit "Get Package"
confirm_title reinstall = lit "Reinstall Package"
confirm_title uninstall = lit "Uninstall Package"

unfoldable pub confirm_verb : Action → Text
confirm_verb install = lit "download "
confirm_verb reinstall = lit "reinstall "
confirm_verb uninstall = lit "uninstall "

unfoldable pub confirm_label : Action → Text
confirm_label install = lit "Get"
confirm_label reinstall = lit "Reinstall"
confirm_label uninstall = lit "Uninstall"

abbrev is_danger : Action → Bool
is_danger uninstall = true
is_danger _ = false

-- the label of a build in choosePackageAsset
unfoldable pub build_label : Asset → Text
build_label b = b.asset ++ (if truthy b.arch then lit " (" ++ (b.arch ++ lit ")") else [])

-- the buttons of the builds, the first being build `n`
abbrev pub build_buttons : ℕ → List Asset → List Button
build_buttons n [] = plain (lit "Cancel") dismiss ∷ []
build_buttons n (b ∷ builds) = plain (build_label b) (pick n) ∷ build_buttons (suc n) builds

abbrev modify_buttons : List Button
modify_buttons =
    plain (lit "Reinstall") pick_reinstall
    ∷ record { label = lit "Uninstall"; primary = false; danger = true; does = pick_uninstall }
    ∷ []

-- The box, on a page that offers "Info" or does not.
unfoldable pub box_of : Bool → Modal → Box
unfolding confirm_title confirm_verb confirm_label build_label
box_of offers_info (notice title message class_name) = record {
  title = title;
  message = message;
  class_name = class_name;
  box_class_name = [];
  buttons = record { label = lit "Close"; primary = true; danger = false; does = dismiss } ∷ [];
}
box_of offers_info (confirm pkg action) = record {
  title = confirm_title action;
  message = lit "Are you sure you want to " ++ (confirm_verb action ++ (pkg.name ++ lit "?"));
  class_name = lit "add-source-modal-overlay";
  box_class_name = lit "confirm-modal-box add-source-modal-box";
  buttons =
      plain (lit "Cancel") dismiss
      ∷ record {
        label = confirm_label action;
        primary = true;
        danger = is_danger action;
        does = accept;
      }
      ∷ [];
}
box_of offers_info (modify pkg) = record {
  title = pkg.name;
  message = lit "Modify package";
  class_name = lit "add-source-modal-overlay";
  box_class_name = lit "modify-modal-box add-source-modal-box";
  buttons = if offers_info then plain (lit "Info") pick_info ∷ modify_buttons else modify_buttons;
}
box_of offers_info (choose pkg action builds) = record {
  title = lit "Choose Package Build";
  message = lit "ZenPM could not determine the compatible build. Choose one to continue.";
  class_name = lit "add-source-modal-overlay";
  box_class_name = lit "modify-modal-box add-source-modal-box";
  buttons = build_buttons 0 builds;
}
