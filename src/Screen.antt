-- ===== src/Screen.antt =====
-- Objects by name: cgo/screen.c, and the functions of cgo/ctrl.c
-- that show a screen and set a text. The tables of names and the graphics library are arguments.
pub mod Build
pub mod Clock
pub mod Layout
pub mod Objects
pub mod Start
pub mod Styles
pub mod Tick
pub mod Widgets
pub mod Wiring
use hardware_os.Base.{
  ℕ, ◌==◌, Bool, true, false, not, Option, none, some, List, [], ◌∷◌, if◌then◌else◌,
}
use hardware_os.Base.Int.{ℤ, pos, negsuc}
use hardware_os.Ui.Navigation.{bytes_eq}

-- An entry of `ui_objects`: a name and what its pointer points to, `none` for NULL.
pub record Entry : Type 0 where
  pub name : List ℕ
  pub obj : Option ℕ

unfoldable pub ui_get_obj : List Entry → List ℕ → Option ℕ
ui_get_obj [] name = none
ui_get_obj (e ∷ es) name = if bytes_eq e.name name then e.obj else ui_get_obj es name

-- Whether an entry's object is the given one.
abbrev pub is_obj : ℕ → Option ℕ → Bool
is_obj scr none = false
is_obj scr (some o) = o == scr

unfoldable pub name_of : List Entry → ℕ → Option (List ℕ)
name_of [] scr = none
name_of (e ∷ es) scr = if is_obj scr e.obj then some e.name else name_of es scr

-- The argument is `lv_scr_act()`.
unfoldable pub ui_get_current_screen : List Entry → Option ℕ → Option (List ℕ)
ui_get_current_screen table none = none
ui_get_current_screen table (some scr) = name_of table scr

-- `lv_scr_act() != obj`, and `lv_scr_load(obj)` if so.
show_object : Option ℕ → Option ℕ → Option ℕ
show_object none active = active
show_object (some o) active = if is_obj o active then active else some o

-- The active screen before and after.
unfoldable pub jetkvm_ui_load_screen : List Entry → List ℕ → Option ℕ → Option ℕ
unfolding show_object
jetkvm_ui_load_screen table obj_name active = show_object (ui_get_obj table obj_name) active

-- The labels of the graphics library, over its state.
pub record Labels (S : Type 0) : Type 0 where
  pub get_text : ℕ → S → List ℕ
  pub set_text : ℕ → List ℕ → S → S

module _ {S : Type 0} (lv : Labels S) where
  set_object_text : Option ℕ → List ℕ → S → S × ℤ
  set_object_text none text s = (s, negsuc 0)
  set_object_text (some o) text s =
      if bytes_eq (lv.get_text o s) text then (s, pos 1) else (lv.set_text o text s, pos 0)

  unfoldable pub jetkvm_ui_set_text : List Entry → List ℕ → List ℕ → S → S × ℤ
  unfolding set_object_text
  jetkvm_ui_set_text table obj_name text s = set_object_text (ui_get_obj table obj_name) text s

  put_text : Option ℕ → List ℕ → S → S
  put_text none text s = s
  put_text (some o) text s = lv.set_text o text s

  -- Nothing calls this one.
  unfoldable pub ui_set_text : List Entry → List ℕ → List ℕ → S → S
  unfolding put_text
  ui_set_text table name text s = put_text (ui_get_obj table name) text s

-- An entry of `ui_images`: a name and the image.
pub record ImageEntry : Type 0 where
  pub name : List ℕ
  pub img : ℕ

-- Nothing calls this one.
unfoldable pub ui_get_image : List ImageEntry → List ℕ → Option ℕ
ui_get_image [] name = none
ui_get_image (e ∷ es) name = if bytes_eq e.name name then some e.img else ui_get_image es name
