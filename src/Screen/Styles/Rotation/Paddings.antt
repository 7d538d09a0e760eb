-- ===== src/Screen/Styles/Rotation/Paddings.antt =====
-- The paddings of the screens and of the menus under rotations (cgo/screen.c, eez/src/ui/styles.c).
use hardware_os.Base.{
  ℕ, ◌==◌, ◌≡◌, ◌⊎◌, inl, inr, refl, true, Option, none, some, List, [], ◌∷◌, Bool-cases,
  Option-cases,
}
use hardware_os.Base.CString.{codes}
use hardware_os.Screen.Styles.{
  Style, pad_left, pad_right, number, StyleId, flex_column_space_between, flex_center, flex_start,
  flow_row_space_between, flow_row_start_center, flex_column_start, flex_screen, flex_screen_menu,
  label_font16, label_font_bold30, header_link, menu_button, menu_button_label, info_headline_label,
  info_content_label, back_button, init_style, style_index,
}
use hardware_os.Screen.Styles.Getters.{Styles, get_style}
use hardware_os.Screen.Styles.Rotation.{
  StyleEntry, ui_get_style, Display, set_padding, pad_screen, lvgl_set_rotation, StyleOp, uses,
  rotates, style_ops,
}

-- What was last set for the paddings of a style.
abbrev pub left_padding : Style → Option ℕ
left_padding [] = none
left_padding ((pad_left, number n) ∷ style) = some n
left_padding (x ∷ style) = left_padding style

abbrev pub right_padding : Style → Option ℕ
right_padding [] = none
right_padding ((pad_right, number n) ∷ style) = some n
right_padding (x ∷ style) = right_padding style

-- The style is initialized, with these paddings.
abbrev pub HasPaddings : ℕ → ℕ → Option Style → Type 0
HasPaddings left right o =
    (style : Style) × (o ≡ some style)
    × (left_padding style ≡ some left)
    × (right_padding style ≡ some right)

-- The style of the menus is not initialized, or has the paddings that it gets then.
abbrev IsMenu : Styles → Type 0
IsMenu styles = (styles flex_screen_menu ≡ none) ⊎ HasPaddings 44 24 (styles flex_screen_menu)

-- What the build promises of the table: the getters of the two styles are in it under their names.
pub record HasStyles (table : List StyleEntry) : Type 0 where
  pub screen :
      (styles : Styles)
      → ui_get_style table (codes "flex_screen") styles
        ≡ (get_style flex_screen styles, some flex_screen)
  pub menu :
      (styles : Styles)
      → ui_get_style table (codes "flex_screen_menu") styles
        ≡ (get_style flex_screen_menu styles, some flex_screen_menu)

init_menu :
    (id : StyleId)
    → (style_index flex_screen_menu == style_index id) ≡ true
    → HasPaddings 44 24 (some (init_style id []))
init_menu flex_screen_menu h = (_, refl, refl, refl)
init_menu flex_column_space_between h = cc
init_menu flex_center h = cc
init_menu flex_start h = cc
init_menu flow_row_space_between h = cc
init_menu flow_row_start_center h = cc
init_menu flex_column_start h = cc
init_menu flex_screen h = cc
init_menu label_font16 h = cc
init_menu label_font_bold30 h = cc
init_menu header_link h = cc
init_menu menu_button h = cc
init_menu menu_button_label h = cc
init_menu info_headline_label h = cc
init_menu info_content_label h = cc
init_menu back_button h = cc

get_style-IsMenu : (id : StyleId) (styles : Styles) → IsMenu styles → IsMenu (get_style id styles)
unfolding get_style
get_style-IsMenu id styles h = elim (Option-cases (styles id)) [
  | inr (style, set) ↦ rw set h
  | inl fresh ↦ rw fresh (elim (Bool-cases (style_index flex_screen_menu == style_index id)) [
    | inl same ↦ rw same (inr (init_menu id same))
    | inr other ↦ rw other h
  ])
]

set_padding-IsMenu :
    (left right : ℕ) (o : Option Style) (styles : Styles)
    → IsMenu styles
    → IsMenu (set_padding left right flex_screen o styles)
unfolding set_padding
set_padding-IsMenu left right none styles h = h
set_padding-IsMenu left right (some style) styles h = h

pad_screen-IsMenu :
    (r : ℕ) (styles : Styles) → IsMenu styles → IsMenu (pad_screen r flex_screen styles)
unfolding pad_screen
pad_screen-IsMenu r styles h = elim (Bool-cases (r == 90)) [
  | inl left ↦ rw left (set_padding-IsMenu 24 44 (styles flex_screen) styles h)
  | inr e ↦ rw e (elim (Bool-cases (r == 270)) [
    | inl right ↦ rw right (set_padding-IsMenu 44 24 (styles flex_screen) styles h)
    | inr up ↦ rw up h
  ])
]

-- Both styles are found and initialized, and the first one is padded.
lvgl_set_rotation_lem :
    (table : List StyleEntry) (r : ℕ) (d : Display)
    → HasStyles table
    → (lvgl_set_rotation table r d).styles
      ≡ pad_screen r flex_screen (get_style flex_screen_menu (get_style flex_screen d.styles))
unfolding lvgl_set_rotation
lvgl_set_rotation_lem table r d has =
    simp (has.screen d.styles, has.menu (get_style flex_screen d.styles)) refl

lvgl_set_rotation-IsMenu :
    (table : List StyleEntry) (r : ℕ) (d : Display)
    → HasStyles table
    → IsMenu d.styles
    → IsMenu (lvgl_set_rotation table r d).styles
lvgl_set_rotation-IsMenu table r d has h = rw (lvgl_set_rotation_lem table r d has) (
    pad_screen-IsMenu r _
      (get_style-IsMenu flex_screen_menu _ (get_style-IsMenu flex_screen d.styles h)))

style_ops-IsMenu :
    (table : List StyleEntry) (ops : List StyleOp) (d : Display)
    → HasStyles table
    → IsMenu d.styles
    → IsMenu (style_ops table ops d).styles
unfolding style_ops
style_ops-IsMenu table [] d has h = h
style_ops-IsMenu table (uses id ∷ ops) d has h =
    style_ops-IsMenu table ops _ has (get_style-IsMenu id d.styles h)
style_ops-IsMenu table (rotates r ∷ ops) d has h =
    style_ops-IsMenu table ops _ has (lvgl_set_rotation-IsMenu table r d has h)

-- The style is initialized.
IsReady : Option Style → Type 0
IsReady o = (style : Style) × (o ≡ some style)

get_style-IsReady : (styles : Styles) → IsReady (get_style flex_screen styles flex_screen)
unfolding get_style IsReady
get_style-IsReady styles = elim (Option-cases (styles flex_screen)) [
  | inr (style, set) ↦ rw set (style, set)
  | inl fresh ↦ rw fresh (_, refl)
]

menu-IsReady :
    (styles : Styles)
    → IsReady (styles flex_screen)
    → IsReady (get_style flex_screen_menu styles flex_screen)
      × IsReady (get_style flex_screen_menu styles flex_screen_menu)
unfolding get_style IsReady
menu-IsReady styles h = elim (Option-cases (styles flex_screen_menu)) [
  | inr (style, set) ↦ rw set (h, (style, set))
  | inl fresh ↦ rw fresh (h, (_, refl))
]

set_padding-HasPaddings :
    (left right : ℕ) (styles : Styles) (o : Option Style)
    → IsReady o
    → HasPaddings left right (set_padding left right flex_screen o styles flex_screen)
unfolding set_padding IsReady
set_padding-HasPaddings left right styles none (style, e) = cc
set_padding-HasPaddings left right styles (some style) h = (_, refl, refl, refl)

set_padding-IsReady :
    (left right : ℕ) (styles : Styles) (o : Option Style)
    → IsReady (styles flex_screen_menu)
    → IsReady (set_padding left right flex_screen o styles flex_screen_menu)
unfolding set_padding
set_padding-IsReady left right styles none h = h
set_padding-IsReady left right styles (some style) h = h

paddings_of_menu :
    (styles : Styles)
    → IsMenu styles
    → IsReady (styles flex_screen_menu)
    → HasPaddings 44 24 (styles flex_screen_menu)
unfolding IsReady
paddings_of_menu styles (inr has) set = has
paddings_of_menu styles (inl fresh) (style, set) = cc

-- After any uses of styles and rotations from the start on, a rotation by 90 degrees gives the style of
-- the screens the paddings 24 on the left and 44 on the right, but the style of the menus keeps 44 and
-- 24, if the table holds both styles under their names.
pub lvgl_set_rotation_menu :
    (table : List StyleEntry) (ops : List StyleOp) (r : ℕ)
    → HasStyles table
    → let d =
        lvgl_set_rotation table 90
          (style_ops table ops (record { rotation = r; styles = λ id. none })) in
      HasPaddings 24 44 (d.styles flex_screen) × HasPaddings 44 24 (d.styles flex_screen_menu)
unfolding pad_screen
lvgl_set_rotation_menu table ops r has =
    let before = style_ops table ops (record { rotation = r; styles = λ id. none }) in
    let kept : IsMenu (lvgl_set_rotation table 90 before).styles =
      lvgl_set_rotation-IsMenu table 90 before has (style_ops-IsMenu table ops _ has (inl refl)) in
    let found = get_style flex_screen_menu (get_style flex_screen before.styles) in
    let (screen, menu) =
      menu-IsReady (get_style flex_screen before.styles) (get_style-IsReady before.styles) in
    let shown : IsReady ((lvgl_set_rotation table 90 before).styles flex_screen_menu) =
      rw (lvgl_set_rotation_lem table 90 before has)
        (set_padding-IsReady 24 44 found (found flex_screen) menu) in
    (
      rw (lvgl_set_rotation_lem table 90 before has)
          (set_padding-HasPaddings 24 44 found (found flex_screen) screen),
      paddings_of_menu (lvgl_set_rotation table 90 before).styles kept shown,
    )

found_padding :
    (left right : ℕ) (styles : Styles)
    → HasPaddings left right (styles flex_screen)
    → HasPaddings left right (get_style flex_screen_menu (get_style flex_screen styles) flex_screen)
unfolding get_style
found_padding left right styles h = menus (get_style flex_screen styles) (screens styles h)
  where
    screens :
        (styles : Styles)
        → HasPaddings left right (styles flex_screen)
        → HasPaddings left right (get_style flex_screen styles flex_screen)
    screens styles (style, e, l, r) = rw e (style, e, l, r)

    menus :
        (styles : Styles)
        → HasPaddings left right (styles flex_screen)
        → HasPaddings left right (get_style flex_screen_menu styles flex_screen)
    menus styles h = elim (Option-cases (styles flex_screen_menu)) [
      | inr (style, set) ↦ rw set h
      | inl fresh ↦ rw fresh h
    ]

-- Where the style of the screens has paddings, a rotation to 0 or 180 degrees leaves them, if the
-- table holds both styles under their names.
lvgl_set_rotation_keeps_padding :
    (table : List StyleEntry) (r left right : ℕ) (d : Display)
    → HasStyles table
    → (r ≡ 0) ⊎ (r ≡ 180)
    → HasPaddings left right (d.styles flex_screen)
    → ((lvgl_set_rotation table r d).rotation ≡ r)
      × HasPaddings left right ((lvgl_set_rotation table r d).styles flex_screen)
unfolding lvgl_set_rotation pad_screen
lvgl_set_rotation_keeps_padding table r left right d has (inl e) padded =
    rw (e, lvgl_set_rotation_lem table 0 d has) (refl, found_padding left right d.styles padded)
lvgl_set_rotation_keeps_padding table r left right d has (inr e) padded =
    rw (e, lvgl_set_rotation_lem table 180 d has) (refl, found_padding left right d.styles padded)
