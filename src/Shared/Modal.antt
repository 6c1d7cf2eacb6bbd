-- ===== src/Shared/Modal.antt =====
-- The modal dialog, web-ui/src/components/shared/Modal.tsx. The page's elements are told apart
-- by where the focus is: outside the panel, on the panel, or on its n-th focusable element.
use asset_tracker.Prelude.{
  ℕ, zero, suc, ◌-◌, Bool, false, ◌++◌, Option, none, some, List, [], ◌∷◌, String, truthy, nat_beq,
  if◌then◌else◌,
}
use asset_tracker.View.{View, heading, button, clickable}

pub data Place : Type 0 where
  outside item : ℕ → Place
  panel : Place

pub data Key : Type 0 where
  escape other_key : Key
  tab : (shift : Bool) → Key

-- What a key does: it closes the modal, the handler moves the focus and prevents the browser's
-- own move, or it leaves the key to the browser.
pub data Reaction : Type 0 where
  closes left_to_browser : Reaction
  focuses : Place → Reaction

abbrev on_item : Place → ℕ → Bool
on_item (item i) n = nat_beq i n
on_item _ n = false

-- `handleKeyDown`, with the number of focusable elements and the place of the focus.
unfoldable pub handle_key_down : Key → (focusable : ℕ) → Place → Reaction
handle_key_down escape n at = closes
handle_key_down other_key n at = left_to_browser
handle_key_down (tab shift) n at =
    if nat_beq n 0
    then left_to_browser
    else if shift
    then if on_item at 0 then focuses (item (n - 1)) else left_to_browser
    else if on_item at (n - 1)
    then focuses (item 0)
    else left_to_browser

-- Where the effect of an opened modal puts the focus: `inputs` are the places of its inputs among
-- the focusable elements.
unfoldable pub initial_focus : (inputs : List ℕ) → (focusable : ℕ) → Place
initial_focus (i ∷ is) n = item i
initial_focus [] zero = panel
initial_focus [] (suc n) = item 0

pub record Focus : Type 0 where
  pub active : Place
  pub previous : Option Place

-- The effect that runs when the modal opens, and its clean-up.
unfoldable pub opened : (inputs : List ℕ) → (focusable : ℕ) → Focus → Focus
unfolding initial_focus
opened inputs n f = record { active = initial_focus inputs n; previous = some f.active }

unfoldable pub closed : Focus → Focus
closed f = elim f.previous [ none ↦ f | some p ↦ record f { active = p } ]

abbrev title_view : {M : Type 0} → Option String → View M
title_view none = []
title_view (some t) = if truthy t then heading t ∷ [] else []

-- The backdrop, the title, the close button and the children.
unfoldable pub modal :
    {M : Type 0} → (is_open : Bool) → (on_close : M) → (title : Option String) → View M → View M
modal is_open on_close title children =
    if is_open
    then clickable on_close ∷ (title_view title ++ button "Close" false on_close ∷ children)
    else []
