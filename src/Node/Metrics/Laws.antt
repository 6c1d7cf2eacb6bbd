-- ===== src/Node/Metrics/Laws.antt =====
-- The traces that are answered, and the limit of a query.
use Prim.Native.Nat.{min, max}
use native.Mathlib.Decide.{dec_lt, ℕ_discrete}
use native.Mathlib.Numerals.{unary_clauses}
use asset_tracker.Prelude.{
  if◌then◌else◌, nat_beq, ℕ, zero, suc, ◌+◌, ◌-◌, ◌≤◌, ◌<◌, ◌≡◌, refl, ◌⊎◌, inl, inr, false, Option,
  none, some, List, [], ◌∷◌, ◌++◌, String, length, length-append, arith, ap, sym, ◌∙◌, map,
}
use asset_tracker.Number.{Number, nan, neg_infinity, infinity, whole, negative}
use asset_tracker.Api.Metrics.{RequestTrace}
use asset_tracker.Node.Metrics.{
  MetricsHandler, element, collect, get_traces, limit_of, parse_int, parse_limit, handle_requests,
}
use asset_tracker.Node.Reply.{detail}

-- The first items of a list, and a list from its last item to its first.
abbrev pub take : {A : Type 0} → ℕ → List A → List A
take zero l = []
take (suc k) [] = []
take (suc k) (x ∷ l) = x ∷ take k l

abbrev drop : {A : Type 0} → ℕ → List A → List A
drop zero l = l
drop (suc k) [] = []
drop (suc k) (x ∷ l) = drop k l

abbrev pub newest_first : {A : Type 0} → List A → List A
newest_first [] = []
newest_first (x ∷ l) = newest_first l ++ x ∷ []

module _ {A : Type 0} where
  length-newest_first : (l : List A) → length (newest_first l) ≡ length l
  length-newest_first [] = refl
  length-newest_first (x ∷ l) =
      omega (arith, length-append (newest_first l) (x ∷ []), length-newest_first l)

  element-append_left : (j : ℕ) (l t : List A) → j < length l → element j (l ++ t) ≡ element j l
  element-append_left j [] t h = absurd (omega arith)
  element-append_left zero (x ∷ l) t h = refl
  element-append_left (suc j) (x ∷ l) t h = element-append_left j l t (omega arith)

  element-append_end : (l : List A) (x : A) → element (length l) (l ++ x ∷ []) ≡ some x
  element-append_end [] x = refl
  element-append_end (y ∷ l) x = element-append_end l x

  element-newest_first :
      (l : List A) (i j : ℕ) → i + j + 1 ≡ length l → element i l ≡ element j (newest_first l)
  element-newest_first [] i j h = absurd (omega arith)
  element-newest_first (x ∷ l) zero j h =
      let e : j ≡ length (newest_first l) = omega (arith, length-newest_first l) in
      rw e (sym (element-append_end (newest_first l) x))
  element-newest_first (x ∷ l) (suc i) j h =
      element-newest_first l i j (omega arith)
      ∙ sym (element-append_left j (newest_first l) (x ∷ []) (omega (arith, length-newest_first l)))

  drop-step :
      (j k : ℕ) (l : List A)
      → j < length l
      → map some (take (suc k) (drop j l)) ≡ element j l ∷ map some (take k (drop (suc j) l))
  drop-step j k [] h = absurd (omega arith)
  drop-step zero k (x ∷ l) h = refl
  drop-step (suc j) k (x ∷ l) h = drop-step j k l (omega arith)

  collect_lem :
      (l : List A) (k i : ℕ)
      → i + k ≤ length l
      → collect l (length l) i k ≡ map some (take k (drop i (newest_first l)))
  collect_lem l zero i h = refl
  collect_lem l (suc k) i h =
      rw
        (
          collect_lem l k (suc i) (omega arith),
          element-newest_first l (length l - 1 - i) i (omega arith),
        )
        (sym (drop-step i k (newest_first l) (omega (arith, length-newest_first l))))

  take-nil : (k : ℕ) → take {A = A} k [] ≡ []
  take-nil zero = refl
  take-nil (suc k) = refl

  take-min : (k : ℕ) (l : List A) → take (min k (length l)) l ≡ take k l
  take-min k [] = rw (take-nil k, take-nil (min k 0)) refl
  take-min zero (x ∷ l) = ground arith
  take-min (suc k) (x ∷ l) = simp unary_clauses (ap (λ t. x ∷ t) (take-min k l))

positive : (n : ℕ) → nat_beq (suc n) 0 ≡ false
positive n = ground arith

clamped_lem : (limit n : ℕ) → 1 ≤ n → max 1 (min limit n) ≡ min (max 1 limit) n
clamped_lem limit n h = omega arith

-- The traces that are answered are the newest ones, the newest first: as many as asked for, at
-- least one and at most all. None is read past the end of the array.
pub get_traces-newest_first :
    (limit : ℕ) (m : MetricsHandler)
    → get_traces limit m ≡ map some (take (max 1 limit) (newest_first m.traces))
unfolding get_traces
get_traces-newest_first limit m = go m.traces
  where
    go :
        (l : List RequestTrace)
        → (if nat_beq (length l) 0
            then []
            else collect l (length l) 0 (max 1 (min limit (length l))))
          ≡ map some (take (max 1 limit) (newest_first l))
    go [] = rw (take-nil {A = RequestTrace} (max 1 limit)) refl
    go (x ∷ l) =
        let all' = x ∷ l in
        rw (positive (length l), clamped_lem limit (length all') (omega arith))
          (collect_lem all' (min (max 1 limit) (length all')) 0 (omega arith)
            ∙ ap (λ t. map some t)
                (ap (λ n. take (min (max 1 limit) n) (newest_first all'))
                    (sym (length-newest_first all'))
                  ∙ take-min (max 1 limit) (newest_first all')))

-- How many traces a query asks for: 50 without a limit, otherwise its number, but at least 1 and at
-- most 10000; and 1 if it is no number.
abbrev pub IsLimit : Option Number → ℕ → Type 0
IsLimit none k = k ≡ 50
IsLimit (some (whole n)) k =
    ((n ≡ 0) × (k ≡ 1)) ⊎ ((1 ≤ n) × (n ≤ 10000) × (k ≡ n)) ⊎ ((10000 < n) × (k ≡ 10000))
IsLimit (some _) k = k ≡ 1

-- The number that a query's text is.
abbrev pub asked_for : Option String → Option Number
asked_for none = none
asked_for (some s) = some (parse_int s)

limit_of-IsLimit : (n : Number) → IsLimit (some n) (limit_of n)
limit_of-IsLimit (whole n) = elim (dec_lt 10000 n) [
  | yes large ↦ inr (inr (large, ground arith))
  | no small ↦ elim (ℕ_discrete n 0) [
    | yes nothing ↦ inl (nothing, ground arith)
    | no some_asked ↦ inr (inl (omega arith, omega arith, ground arith))
  ]
]
limit_of-IsLimit nan = refl
limit_of-IsLimit neg_infinity = refl
limit_of-IsLimit infinity = refl
limit_of-IsLimit (negative n) = refl

parse_limit-IsLimit : (raw : Option String) → IsLimit (asked_for raw) (parse_limit raw)
unfolding parse_limit
parse_limit-IsLimit none = omega arith
parse_limit-IsLimit (some s) = limit_of-IsLimit (parse_int s)

IsLimit-positive : (a : Option Number) (k : ℕ) → IsLimit a k → 1 ≤ k
IsLimit-positive none k h = omega arith
IsLimit-positive (some (whole n)) k h = ground arith
IsLimit-positive (some nan) k h = omega arith
IsLimit-positive (some neg_infinity) k h = omega arith
IsLimit-positive (some infinity) k h = omega arith
IsLimit-positive (some (negative n)) k h = omega arith

-- The reply to a query has both counters and the newest traces, the newest first: without a limit
-- 50 of them, with a number as many as it says, but at least 1 and at most 10000, with any other
-- text 1; and fewer only if there are no more. No trace is read past the end of the array.
pub handle_requests-newest_first :
    (raw : Option String) (m : MetricsHandler)
    → (k : ℕ) × IsLimit (asked_for raw) k
      × (handle_requests raw m ≡ record {
        status = 200;
        body = detail m.requests m.errors (map some (take k (newest_first m.traces)));
      })
unfolding handle_requests
handle_requests-newest_first raw m =
    let k = parse_limit raw in
    let fits = parse_limit-IsLimit raw in
    (
      k,
      fits,
      rw (get_traces-newest_first k m, max_one k (IsLimit-positive (asked_for raw) k fits)) refl,
    )
  where
    max_one : (k : ℕ) → 1 ≤ k → max 1 k ≡ k
    max_one k h = omega arith
