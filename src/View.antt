-- ===== src/View.antt =====
-- What a component renders, in document order: the texts, controls and placeholders that a user
-- can read and act on. Nesting and CSS classes are left out, but for the classes that carry a
-- state, which are functions of their own. `M` is the type of the component's events: a control
-- carries the event that its handler stands for.
use asset_tracker.Prelude.{ℕ, Bool, true, false, List, [], ◌∷◌, ◌++◌, String, if◌then◌else◌}

pub data Element (M : Type 0) : Type 0 where
  heading : String → Element M
  text : String → Element M
  -- a message in the style of an error
  alert : String → Element M
  -- a loading placeholder
  skeleton : Element M
  -- a label, whether it is disabled, and the click handler
  button : String → Bool → M → Element M
  -- an element that is no button and has a click handler
  clickable : M → Element M
  -- an input, text area or select: its id, its value and the change handler
  field : String → String → (String → M) → Element M
  -- an option of the select above it: its value and its label
  choice : String → String → Element M
  -- the matched child route
  outlet : Element M

abbrev pub View : Type 0 → Type 0
View M = List (Element M)

-- `{test && view}`
abbrev pub when : {M : Type 0} → Bool → View M → View M
when true v = v
when false v = []

-- `{items.map(f)}` of views
abbrev pub each : {A M : Type 0} → (A → View M) → List A → View M
each f [] = []
each f (a ∷ as') = f a ++ each f as'

abbrev element_events : {M : Type 0} → Element M → List M
element_events (button label disabled m) = if disabled then [] else m ∷ []
element_events (clickable m) = m ∷ []
element_events _ = []

-- The events that a click on the view can raise: a disabled button raises none.
abbrev pub clicks : {M : Type 0} → View M → List M
clicks [] = []
clicks (e ∷ v) = element_events e ++ clicks v

abbrev element_skeletons : {M : Type 0} → Element M → ℕ
element_skeletons skeleton = 1
element_skeletons _ = 0

abbrev element_alert : {M : Type 0} → Element M → List String
element_alert (alert s) = s ∷ []
element_alert _ = []

-- The error messages that the view shows.
abbrev pub alerts : {M : Type 0} → View M → List String
alerts [] = []
alerts (e ∷ v) = element_alert e ++ alerts v

-- The view of a child component, with its events as events of the parent.
abbrev map_element : {M N : Type 0} → (M → N) → Element M → Element N
map_element f (heading s) = heading s
map_element f (text s) = text s
map_element f (alert s) = alert s
map_element f skeleton = skeleton
map_element f (button label disabled m) = button label disabled (f m)
map_element f (clickable m) = clickable (f m)
map_element f (field id value change) = field id value (λ s. f (change s))
map_element f (choice value label) = choice value label
map_element f outlet = outlet

abbrev pub map_view : {M N : Type 0} → (M → N) → View M → View N
map_view f [] = []
map_view f (e ∷ v) = map_element f e ∷ map_view f v
