-- ===== src/Storage.antt =====
-- The browser's `localStorage`, which AuthContext.tsx, SettingsContext.tsx and __root.tsx share:
-- texts under keys. `denied` stands for a browser that refuses access: every call then throws,
-- which is `none` here.
use asset_tracker.Prelude.{
  ◌≡◌, refl, Bool, Option, none, some, List, [], ◌∷◌, String, ◌==◌, eq_iff, arith, if◌then◌else◌,
}

pub record Storage : Type 0 where
  pub denied : Bool
  pub items : List (String × String)

unfoldable pub lookup : (key : String) → (items : List (String × String)) → Option String
lookup key [] = none
lookup key ((at, text) ∷ items) = if at == key then some text else lookup key items

unfoldable pub erase : (key : String) → List (String × String) → List (String × String)
erase key [] = []
erase key ((at, text) ∷ items) =
    let rest = erase key items in if at == key then rest else (at, text) ∷ rest

-- A key that is there keeps its place.
unfoldable pub insert : (key text : String) → List (String × String) → List (String × String)
insert key text [] = (key, text) ∷ []
insert key text ((at, old) ∷ items) =
    let rest = insert key text items in if at == key then (key, text) ∷ items else (at, old) ∷ rest

unfoldable pub get_item : String → Storage → Option (Option String)
get_item k s = if s.denied then none else some (lookup k s.items)

unfoldable pub set_item : String → String → Storage → Option Storage
set_item k v s = if s.denied then none else some (record s { items = insert k v s.items })

unfoldable pub remove_item : String → Storage → Option Storage
remove_item k s = if s.denied then none else some (record s { items = erase k s.items })

pub lookup-erase :
    (key other : String) (items : List (String × String))
    → lookup other (erase key items) ≡ (if key == other then none else lookup other items)
unfolding lookup erase
lookup-erase key other [] = ground arith
lookup-erase key other ((at, text) ∷ items) =
    ground (arith, eq_iff at key, eq_iff at other, eq_iff key other, lookup-erase key other items)

pub lookup-insert :
    (key other text : String) (items : List (String × String))
    → lookup other (insert key text items)
      ≡ (if key == other then some text else lookup other items)
unfolding lookup insert
lookup-insert key other text [] = refl
lookup-insert key other text ((at, old) ∷ items) =
    ground
      (arith, eq_iff at key, eq_iff at other, eq_iff key other, lookup-insert key other text items)
