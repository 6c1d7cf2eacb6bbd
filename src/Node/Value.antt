-- ===== src/Node/Value.antt =====
-- The values of JavaScript that a parsed body or message may hold, and the tests that the service
-- makes on them.
use Prim.Native.Char.{code}
use asset_tracker.Prelude.{
  ℕ, Bool, true, false, not, ◌&&◌, ◌||◌, String, ◌==◌, truthy, leb, nat_beq, if◌then◌else◌,
}
use asset_tracker.Number.{Number, nan, whole}

mutual
  pub data Value : Type 0 where
    undefined null : Value
    boolean : Bool → Value
    number : Number → Value
    text : String → Value
    array : Items → Value
    object : Fields → Value

  pub data Items : Type 0 where
    nil : Items
    cons : Value → Items → Items

  pub data Fields : Type 0 where
    end : Fields
    field : String → Value → Fields → Fields

abbrev pub lookup_field : String → Fields → Value
lookup_field k end = undefined
lookup_field k (field j v fs) = if j == k then v else lookup_field k fs

-- Reading a property of a value that is not undefined or null, where it would throw. The service
-- reads names that no text, number, Boolean or array has.
abbrev pub property : String → Value → Value
property k (object fs) = lookup_field k fs
property k _ = undefined

abbrev is_falsy_number : Number → Bool
is_falsy_number nan = true
is_falsy_number (whole n) = nat_beq n 0
is_falsy_number _ = false

-- The test of a value in `if`, `!`, `||`.
abbrev pub is_truthy : Value → Bool
is_truthy undefined = false
is_truthy null = false
is_truthy (boolean b) = b
is_truthy (number n) = not (is_falsy_number n)
is_truthy (text s) = truthy s
is_truthy _ = true

-- `v ?? null`
abbrev pub or_null : Value → Value
or_null undefined = null
or_null v = v

-- A parameter with the default null.
abbrev pub default_null : Value → Value
default_null undefined = null
default_null v = v

-- The characters that `trim` removes: white space and line ends.
abbrev pub is_space : ℕ → Bool
is_space c =
    (leb 9 c && leb c 13)
    || nat_beq c 32
    || nat_beq c 160
    || nat_beq c 5760
    || (leb 8192 c && leb c 8202)
    || nat_beq c 8232
    || nat_beq c 8233
    || nat_beq c 8239
    || nat_beq c 8287
    || nat_beq c 12288
    || nat_beq c 65279

-- `s.trim().length === 0`
unfoldable pub is_blank : String → Bool
is_blank String.[] = true
is_blank (String.◌∷◌ c s) = is_space (code c) && is_blank s

-- `!(!v || typeof v !== 'string' || v.trim().length === 0)`
unfoldable pub is_filled : Value → Bool
is_filled (text s) = truthy s && not (is_blank s)
is_filled _ = false
