-- ===== src/Auth/Expiry.antt =====
-- When the route guard takes a token for expired.
use asset_tracker.Prelude.{
  ℕ, ◌≤◌, ◌≡◌, refl, ◌≢◌, ◌↔◌, true, false, Option, none, some, List, [], ◌∷◌, String, eq_iff,
  arith, Bool-cases, inl, inr,
}
use asset_tracker.Number.{Number, whole, lt, times_1000}
use asset_tracker.Auth.Guard.{
  Platform, Payload, null, with_exp, split_dot, payload_expired, text_expired, parts_expired,
  is_token_expired,
}

-- The token has three parts, and the middle one is not empty and decodes to a payload with this
-- `exp`.
pub record Carries (p : Platform) (t : String) (exp : Number) : Type 0 where
  pub header : String
  pub payload : String
  pub signature : String
  pub text : String
  pub three : split_dot t ≡ header ∷ payload ∷ signature ∷ []
  pub full : payload ≢ ""
  pub decoded : p.atob payload ≡ some text
  pub parsed : p.json_parse text ≡ some (with_exp exp)

payload_sound :
    (now : ℕ) (o : Option Payload)
    → payload_expired now o ≡ false
    → (exp : Number) × (o ≡ some (with_exp exp)) × (lt (times_1000 exp) (whole now) ≡ false)
payload_sound now none h = absurd (cc)
payload_sound now (some null) h = absurd (cc)
payload_sound now (some (with_exp exp)) h = (exp, refl, h)

text_sound :
    (p : Platform) (now : ℕ) (o : Option String)
    → text_expired p now o ≡ false
    → (text : String) × (o ≡ some text) × (payload_expired now (p.json_parse text) ≡ false)
text_sound p now none h = absurd (cc)
text_sound p now (some text) h = (text, refl, h)

parts_sound :
    (p : Platform) (now : ℕ) (ws : List String)
    → parts_expired p now ws ≡ false
    → (a : String) × (b : String) × (c : String) × (ws ≡ a ∷ b ∷ c ∷ [])
      × (b ≢ "")
      × (text_expired p now (p.atob b) ≡ false)
parts_sound p now (a ∷ b ∷ c ∷ []) h =
    (a, b, c, refl, ground (arith, eq_iff b ""), ground (arith, eq_iff b ""))
parts_sound p now _ h = absurd (cc)

-- A token counts as fresh at a time exactly when it carries an `exp` for which `exp * 1000` is
-- not below that time. A NaN is never below: a payload without `exp` is fresh for ever.
pub is_token_expired_iff :
    (p : Platform) (now : ℕ) (t : String)
    → (is_token_expired p now t ≡ false)
      ↔ ((exp : Number) × Carries p t exp × (lt (times_1000 exp) (whole now) ≡ false))
unfolding is_token_expired
is_token_expired_iff p now t = (
  λ h.
      let (a, b, c, three, full, rest) = parts_sound p now (split_dot t) h in
      let (text, decoded, rest') = text_sound p now (p.atob b) rest in
      let (exp, parsed, fresh) = payload_sound now (p.json_parse text) rest' in
      (
        exp,
        record {
          header = a;
          payload = b;
          signature = c;
          text = text;
          three = three;
          full = full;
          decoded = decoded;
          parsed = parsed;
        },
        fresh,
      ),
  λ h.
      let (exp, k, fresh) = h in
      rw k.three (ground (arith, eq_iff k.payload "", k.full, k.decoded, k.parsed)),
)

lt_later :
    (a : Number) (now later : ℕ) → now ≤ later → lt a (whole now) ≡ true → lt a (whole later) ≡ true
lt_later (whole n) now later h e = ground arith
lt_later a now later h e = ground arith

-- Time does not refresh a token: one that counts as expired does so at every later time.
is_token_expired-later :
    (p : Platform) (now later : ℕ) (t : String)
    → now ≤ later
    → is_token_expired p now t ≡ true
    → is_token_expired p later t ≡ true
is_token_expired-later p now later t h e = elim (Bool-cases (is_token_expired p later t)) [
  | inl old ↦ old
  | inr fresh ↦
      let (exp, k, not_below) = (is_token_expired_iff p later t).0 fresh in
      let still = lt_later (times_1000 exp) now later h in
      elim (Bool-cases (lt (times_1000 exp) (whole now))) [
        | inl below ↦ absurd (cc (still below))
        | inr not_yet ↦ absurd (cc ((is_token_expired_iff p now t).1 (exp, k, not_yet)))
      ]
]
