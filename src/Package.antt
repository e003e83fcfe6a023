-- ===== src/Package.antt =====
-- A package as the daemon reports it in GET /packages (frontend/kindle/utils.js reads these
-- fields). A text field that the report leaves out is the empty text, an absent flag is `false` and
-- an absent list is `[]`: the code reads each of them only through its truth value or `|| ""`.
pub mod Signature
use zen_pm.Prelude.{Text, Bool, List}

pub record Package : Type 0 where
  pub id : Text
  pub name : Text
  pub repo : Text
  pub version : Text
  pub description : Text
  pub author : Text
  pub icon_url : Text
  pub icon : Text
  pub image_url : Text
  pub images : List Text
  pub image : Text
  pub repo_icon_url : Text
  pub repo_trust : Text
  pub repo_default : Bool
  pub featured : Bool
  pub featured_image : Text
  pub installed : Bool
  pub tags : List Text
