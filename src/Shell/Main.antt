-- ===== src/Shell/Main.antt =====
-- The start of the page, web-ui/src/main.tsx. Whether the page has the root element, and the error
-- that React throws when it mounts the application, are arguments.
use asset_tracker.Prelude.{Bool, true, false, Option, none, some, List, [], ◌∷◌, String}
use Prim.Native.String
use asset_tracker.View.{View, heading, text}

-- What the start leaves: the content that it wrote itself, if it did, the exception that ends the
-- script, and what it wrote to the console.
pub record Start (M : Type 0) : Type 0 where
  pub written : Option (View M)
  pub thrown : Option String
  pub console : List String

unfoldable pub start_page : {M : Type 0} → (has_root : Bool) → (error : Option String) → Start M
start_page false error = record {
  written = some (heading "Error: Root element not found" ∷ []);
  thrown = some "Root element not found";
  console = [];
}
start_page true none = record { written = none; thrown = none; console = [] }
start_page true (some err) = record {
  written = some (heading "React failed to mount" ∷ text err ∷ []);
  thrown = none;
  console = String.◌++◌ "React mount error: " err ∷ [];
}
