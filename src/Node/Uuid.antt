-- ===== src/Node/Uuid.antt =====
-- The regular expression for a UUID of version 4, which node-service/src/domain/event.js and
-- application/list-events.js share: /^[0-9a-f]{8}-[0-9a-f]{4}-4[0-9a-f]{3}-[89ab][0-9a-f]{3}-
-- [0-9a-f]{12}$/i.
use Prim.Native.Char.{Char, code}
use asset_tracker.Prelude.{
  ℕ, ◌≡◌, refl, Bool, true, false, ◌&&◌, ◌||◌, List, [], ◌∷◌, ◌++◌, String, arith, truthy,
  truthy_iff, leb, nat_beq, replicate,
}
use asset_tracker.Node.Value.{is_space, is_blank, text, is_filled}

-- A character of the pattern; the flag i lets letters of both cases match.
pub data Class : Type 0 where
  hex dash four variant : Class

abbrev pub fits : Class → ℕ → Bool
fits hex c = (leb b'0' c && leb c b'9') || (leb b'a' c && leb c b'f') || (leb b'A' c && leb c b'F')
fits dash c = nat_beq c b'-'
fits four c = nat_beq c b'4'
fits variant c =
    nat_beq c b'8'
    || nat_beq c b'9'
    || nat_beq c b'a'
    || nat_beq c b'b'
    || nat_beq c b'A'
    || nat_beq c b'B'

abbrev uuid_v4 : List Class
uuid_v4 =
    replicate 8 hex
    ++ (dash ∷ replicate 4 hex
        ++ (dash ∷ four ∷ replicate 3 hex
            ++ (dash ∷ variant ∷ replicate 3 hex ++ (dash ∷ replicate 12 hex))))

unfoldable pub match_classes : List Class → String → Bool
match_classes [] String.[] = true
match_classes [] (String.◌∷◌ c s) = false
match_classes (k ∷ ks) String.[] = false
match_classes (k ∷ ks) (String.◌∷◌ c s) = fits k (code c) && match_classes ks s

unfoldable pub is_uuid : String → Bool
unfolding match_classes
is_uuid s = match_classes uuid_v4 s

is_uuid_upper : is_uuid "550E8400-e29b-41d4-a716-446655440000" ≡ true
unfolding is_uuid match_classes
is_uuid_upper = refl

is_uuid_wrong : is_uuid "550e8400-e29b-51d4-a716-446655440000" ≡ false
unfolding is_uuid match_classes
is_uuid_wrong = refl

hex_not_space : (c : ℕ) → fits hex c ≡ true → is_space c ≡ false
hex_not_space c h = ground arith

truthy_cons : (c : Char) (s : String) → truthy (String.◌∷◌ c s) ≡ true
truthy_cons c s = (truthy_iff (String.◌∷◌ c s)).1 (λ e. cc)

-- A UUID is a text that counts as filled.
pub is_filled-is_uuid : (s : String) → is_uuid s ≡ true → is_filled (text s) ≡ true
unfolding is_uuid match_classes is_filled is_blank
is_filled-is_uuid String.[] h = ground arith
is_filled-is_uuid (String.◌∷◌ c s) h = ground (arith, hex_not_space (code c), truthy_cons c s)
