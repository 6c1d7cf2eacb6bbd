-- ===== src/System/Proxy.antt =====
-- The proxy of the development server, web-ui/vite.config.ts. Which requests the server hands to a
-- rule is its own code: `matches`, by its documentation the test whether the request's path starts
-- with the rule's key.
use Prim.Native.Char.{code}
use Prim.Native.String
use package.text.Mathlib.TextLemmas.{cons-append, nil-append}
use asset_tracker.Prelude.{
  ◌≡◌, ◌≢◌, Bool, true, false, ◌||◌, not, Option, none, some, List, [], ◌∷◌, String, nat_beq,
  or_else, arith, if◌then◌else◌, ap, ◌∙◌, sym,
}

-- What follows a prefix of a text, if it is one.
abbrev pub without : (prefix text : String) → Option String
without String.[] t = some t
without (String.◌∷◌ c p) String.[] = none
without (String.◌∷◌ c p) (String.◌∷◌ d t) = if nat_beq (code c) (code d) then without p t else none

-- `p.replace(/^…/, "")`
abbrev pub cut : (prefix text : String) → String
cut p t = or_else (without p t) t

pub record ProxyRule : Type 0 where
  pub context : String
  pub target : String
  pub rewrite : String → String

abbrev pub go_target : String
go_target = "http://localhost:8080"

abbrev pub node_target : String
node_target = "http://localhost:3000"

-- `server.proxy`
unfoldable pub proxy_rules : List ProxyRule
proxy_rules =
    record { context = "/api/go"; target = go_target; rewrite = cut "/api/go" }
    ∷ record { context = "/api/node"; target = node_target; rewrite = cut "/api/node" }
    ∷ []

module _ (matches : (context url : String) → Bool) where
  abbrev pub first_rule : List ProxyRule → String → Option (String × String)
  first_rule [] url = none
  first_rule (rule ∷ rules) url =
      if matches rule.context url
      then some (rule.target, rule.rewrite url)
      else first_rule rules url

  -- Where a request goes and under which path; `none` where the server answers it itself.
  unfoldable pub proxy : String → Option (String × String)
  unfolding proxy_rules
  proxy url = first_rule proxy_rules url

-- Two texts have different characters at one place.
abbrev pub differs : String → String → Bool
differs String.[] t = false
differs (String.◌∷◌ c p) String.[] = false
differs (String.◌∷◌ c p) (String.◌∷◌ d t) = not (nat_beq (code c) (code d)) || differs p t

pub without-append : (p t : String) → without p (String.◌++◌ p t) ≡ some t
without-append String.[] t = ap some (nil-append t)
without-append (String.◌∷◌ c p) t =
    ap (without (String.◌∷◌ c p)) (cons-append c p t) ∙ ground (arith, without-append p t)

pub without-differs : (p q t : String) → differs p q ≡ true → without p (String.◌++◌ q t) ≡ none
without-differs String.[] q t h = absurd (cc)
without-differs (String.◌∷◌ c p) String.[] t h = absurd (cc)
without-differs (String.◌∷◌ c p) (String.◌∷◌ d q) t h =
    ap (without (String.◌∷◌ c p)) (cons-append d q t) ∙ ground (arith, without-differs p q t)

-- A text that begins otherwise is another text.
pub differs-ne : (p q t : String) → differs p q ≡ true → without p p ≡ some "" → String.◌++◌ q t ≢ p
differs-ne p q t h k e =
    let gone : without p p ≡ none = ap (without p) (sym e) ∙ without-differs p q t h in cc
