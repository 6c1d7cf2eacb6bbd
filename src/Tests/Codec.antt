-- ===== src/Tests/Codec.antt =====
-- A small code for JSON objects of texts, which reads back what it writes.
use Prim.Native.Char.{Char, code}
use asset_tracker.Prelude.{
  ◌≡◌, refl, Option, some, List, [], ◌∷◌, String, nat_beq, ap, if◌then◌else◌,
}
use asset_tracker.Api.Http.{Json}
use asset_tracker.Node.Value.{Value, text, object, Fields, end, field}
use asset_tracker.Node.Gateway.{fields_of}

-- A text as pairs of characters: a dash before each of its own, and two dots at its end.
abbrev pub write : String → String → String
write String.[] t = String.◌∷◌ "." (String.◌∷◌ "." t)
write (String.◌∷◌ c s) t = String.◌∷◌ "-" (String.◌∷◌ c (write s t))

abbrev pub stringify : Json → String
stringify [] = ""
stringify ((k, v) ∷ j) = write k (write v (stringify j))

abbrev pub put : Char → List String → List String
put c [] = []
put c (s ∷ ss) = String.◌∷◌ c s ∷ ss

abbrev pub read : String → List String
read String.[] = []
read (String.◌∷◌ a String.[]) = []
read (String.◌∷◌ a (String.◌∷◌ c s)) =
    let rest = read s in if nat_beq (code a) b'.' then "" ∷ rest else put c rest

abbrev pub paired : List String → Fields
paired [] = end
paired (k ∷ []) = end
paired (k ∷ (v ∷ ss)) = field k (text v) (paired ss)

abbrev pub json_parse : String → Option Value
json_parse s = some (object (paired (read s)))

read-write : (s t : String) → read (write s t) ≡ s ∷ read t
read-write String.[] t = refl
read-write (String.◌∷◌ c s) t = ap (put c) (read-write s t)

paired-read : (j : Json) → paired (read (stringify j)) ≡ fields_of j
paired-read [] = refl
paired-read ((k, v) ∷ j) =
    rw (read-write k (write v (stringify j)), read-write v (stringify j))
      (ap (field k (text v)) (paired-read j))

pub reads_back : (j : Json) → json_parse (stringify j) ≡ some (object (fields_of j))
reads_back j = ap (λ fs. some (object fs)) (paired-read j)
