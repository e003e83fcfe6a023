-- ===== src/Cards/Media.antt =====
-- `renderMediaCard` of frontend/kindle/utils.js: a card with an image, a title and two lines. The
-- elements are named by their class; the layout of the boxes around them is left out.
use zen_pm.Prelude.{
  ℕ, List, [], ◌∷◌, ◌++◌, Option, none, some, Bool, false, ◌||◌, Text, lit, ◌==◌, ◌or◌,
  if◌then◌else◌, truthy,
}
use zen_pm.Repos.{base_path}

-- An option that is left out is the empty text, 0 or `false`; `action` is the text of the button.
pub record MediaOptions : Type 0 where
  pub tag_name : Text
  pub class_name : Text
  pub clickable : Bool
  pub icon_size : ℕ
  pub image_src : Text
  pub image_fallback : Text
  pub title : Text
  pub check : Bool
  pub title_icon_src : Text
  pub title_icon_class : Text
  pub title_icon_alt : Text
  pub title_icon_size : ℕ
  pub line2 : Text
  pub line3 : Text
  pub action : Option Text

pub record Badge : Type 0 where
  pub class_name : Text
  pub src : Text
  pub alt : Text
  pub size : ℕ

-- `image` and `image_fallback` are what setImageWithFallback is given.
pub record MediaCard : Type 0 where
  pub tag_name : Text
  pub class_name : Text
  pub clickable : Bool
  pub icon_size : ℕ
  pub image : Text
  pub image_fallback : Text
  pub title : Text
  pub badge : Option Badge
  pub lines : List (Text × Text)  -- class and text
  pub action : Option Text

abbrev or_size : ℕ → ℕ → ℕ
or_size n default_size = if n == 0 then default_size else n

abbrev joined_class : Text → Text → Text
joined_class first more = if truthy more then first ++ (lit " " ++ more) else first

abbrev line_of : Text → Text → List (Text × Text)
line_of class_name text = if truthy text then (class_name, text) ∷ [] else []

unfoldable pub render_media_card : Text → MediaOptions → MediaCard
render_media_card path o = record {
  tag_name = o.tag_name or lit "article";
  class_name =
      joined_class (lit "media-card") o.class_name
      ++ (if o.clickable then lit " media-card-clickable" else []);
  clickable = o.clickable;
  icon_size = or_size o.icon_size 96;
  image = o.image_src;
  image_fallback = o.image_fallback;
  title = o.title;
  badge =
      if o.check || truthy o.title_icon_src
      then some (record {
        class_name = joined_class (lit "media-card-check") o.title_icon_class;
        src = o.title_icon_src or (base_path path ++ lit "/assets/checkmark.svg");
        alt = o.title_icon_alt;
        size = or_size o.title_icon_size 36;
      })
      else none;
  lines =
      line_of (lit "media-card-line media-card-line-2") o.line2
      ++ line_of (lit "media-card-line media-card-line-3") o.line3;
  action = o.action;
}

-- The options when none is given.
unfoldable pub no_options : MediaOptions
no_options = record {
  tag_name = [];
  class_name = [];
  clickable = false;
  icon_size = 0;
  image_src = [];
  image_fallback = [];
  title = [];
  check = false;
  title_icon_src = [];
  title_icon_class = [];
  title_icon_alt = [];
  title_icon_size = 0;
  line2 = [];
  line3 = [];
  action = none;
}
