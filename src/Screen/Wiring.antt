-- ===== src/Screen/Wiring.antt =====
-- Which events of the screens lead where: the callbacks that eez/src/ui/screens.c adds, the handlers of
-- eez/src/ui/actions.c that they call, and the screens that the rest of the firmware loads by name.
pub mod Abstract
pub mod Held
pub mod Menu
pub mod Presses
pub mod Shown
pub mod Still
use hardware_os.Base.{
  ℕ, zero, suc, ◌≡◌, ◌≢◌, Bool, true, false, Option, none, some, List, [], ◌∷◌, ◌++◌,
}
use mathlib.Core.List.{Memᴰ}
use hardware_os.Ui.Vars.{Vars}
use hardware_os.Ui.Navigation.{Nav, Gesture, Action, action}
use hardware_os.Screen.{Entry, ui_get_obj, jetkvm_ui_load_screen}
use hardware_os.Screen.Layout.Fields
use hardware_os.Screen.Layout.{
  EventCode, gesture, Handler, navigates, Call, add_event_cb, Widget, widget, Widgets, leaf, ◌▹◌,
}
use hardware_os.Screen.Layout.AboutScreen.{about_screen_layout}
use hardware_os.Screen.Layout.BootScreen.{boot_screen_layout}
use hardware_os.Screen.Layout.HomeScreen.{home_screen_layout}
use hardware_os.Screen.Layout.MenuAdvancedScreen.{menu_advanced_screen_layout}
use hardware_os.Screen.Layout.MenuNetworkScreen.{menu_network_screen_layout}
use hardware_os.Screen.Layout.MenuScreen.{menu_screen_layout}
use hardware_os.Screen.Layout.NoNetworkScreen.{no_network_screen_layout}
use hardware_os.Screen.Layout.RebootScreen.{reboot_screen_layout}
use hardware_os.Screen.Layout.RebootingScreen.{rebooting_screen_layout}
use hardware_os.Screen.Layout.ResetConfigScreen.{reset_config_screen_layout}
use hardware_os.Screen.Layout.StatusScreen.{status_screen_layout}
use hardware_os.Screen.Layout.SwitchDhcpClientScreen.{switch_dhcp_client_screen_layout}

-- The callbacks that are added to one widget, and to all the widgets of a tree.
unfoldable pub callbacks_of : List Call → List (Handler × EventCode)
callbacks_of [] = []
callbacks_of (add_event_cb h code ∷ cs) = (h, code) ∷ callbacks_of cs
callbacks_of (_ ∷ cs) = callbacks_of cs

unfoldable mutual
  unfolding callbacks_of

  pub callbacks : Widget → List (Handler × EventCode)
  callbacks (widget kind field calls inside) = callbacks_of calls ++ callbacks_inside inside

  pub callbacks_inside : Widgets → List (Handler × EventCode)
  callbacks_inside leaf = []
  callbacks_inside (w ▹ ws) = callbacks w ++ callbacks_inside ws

-- The layouts in the order of `enum ScreensEnum`, so by their screens' positions in `objects`.
abbrev pub layouts : List Widget
layouts =
    boot_screen_layout ∷ no_network_screen_layout ∷ home_screen_layout ∷ menu_screen_layout
    ∷ menu_advanced_screen_layout ∷ menu_network_screen_layout ∷ about_screen_layout
    ∷ status_screen_layout ∷ reset_config_screen_layout ∷ reboot_screen_layout
    ∷ rebooting_screen_layout ∷ switch_dhcp_client_screen_layout ∷ []

abbrev pub layout_at : ℕ → List Widget → Option Widget
layout_at n [] = none
layout_at zero (w ∷ ws) = some w
layout_at (suc n) (w ∷ ws) = layout_at n ws

abbrev pub is_gesture_code : EventCode → Bool
is_gesture_code gesture = true
is_gesture_code _ = false

module _ (objects : ℕ → Option ℕ) where
  -- The buttons to press and hold load no screen.
  unfoldable pub handle : Handler → Gesture → Vars → Nav → Nav
  handle (navigates a) g vars nav = action objects a g vars nav
  handle _ g vars nav = nav

  -- A widget of the screen that is shown receives an event that it has a callback for.
  pub data Fires (nav : Nav) : Nav → Type 0 where
    event :
        (screen : ℕ) (w : Widget) (h : Handler) (code : EventCode) (g : Gesture) (vars : Vars)
        → layout_at screen layouts ≡ some w
        → nav.active ≡ objects screen
        → Memᴰ (h, code) (callbacks w)
        → g.is_gesture ≡ is_gesture_code code
        → Fires nav (handle h g vars nav)

  -- Such an event; or the firmware loads a screen by its name, but not that of the network menu.
  pub data Step (nav : Nav) : Nav → Type 0 where
    fires : {after : Nav} → Fires nav after → Step nav after
    loads :
        (table : List Entry) (name : List ℕ)
        → ui_get_obj table name ≢ objects Fields.menu_network_screen
        → Step nav (record nav { active = jetkvm_ui_load_screen table name nav.active })

  pub data Reach (start : Nav) : Nav → Type 0 where
    here : Reach start start
    next : {nav after : Nav} → Reach start nav → Step nav after → Reach start after
