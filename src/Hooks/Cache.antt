-- ===== src/Hooks/Cache.antt =====
-- The cache of the query library, as its documentation describes it: an entry for each key, which a
-- fetch that resolves writes and an invalidation marks.
use asset_tracker.Prelude.{
  ℕ, ◌+◌, ◌≡◌, Bool, true, not, ◌&&◌, ◌||◌, Option, none, some, List, [], ◌∷◌, leb,
}
use asset_tracker.Hooks.{Key, QueryOptions, stale_time_of, Matching}
use asset_tracker.Hooks.Calls.{Writer, invalidates}

-- When the data was written, in milliseconds, and whether it was invalidated since.
pub record Entry : Type 0 where
  pub updated_at : ℕ
  pub is_invalidated : Bool

abbrev pub mark : Bool → Option Entry → Option Entry
mark b none = none
mark b (some e) = some (record e { is_invalidated = b || e.is_invalidated })

-- Data is stale if there is none, if it was invalidated, and when its time has passed.
abbrev pub is_stale : (stale_time now : ℕ) → Option Entry → Bool
is_stale stale_time now none = true
is_stale stale_time now (some e) = e.is_invalidated || leb (e.updated_at + stale_time) now

-- A query is active while a mounted component asks for it with `enabled`. `fetches q now c`: a
-- component that mounts with the query at that time makes the library call its `queryFn`.
-- `invalidateQueries` marks every entry that the key reaches and fetches the active ones at once; a
-- query that is being fetched is not fetched again by a mount.
pub record QueryCache (C : Type 0) : Type 0 where
  pub matching : Matching
  pub entry : Key → C → Option Entry
  pub is_active : Key → C → Bool
  pub is_fetching : Key → C → Bool
  pub invalidate : Key → C → C
  pub fetches : QueryOptions → (now : ℕ) → C → Bool
  pub entry-invalidate :
      (f k : Key) (c : C) → entry k (invalidate f c) ≡ mark (matching.matches f k) (entry k c)
  pub is_active-invalidate : (f k : Key) (c : C) → is_active k (invalidate f c) ≡ is_active k c
  pub is_fetching-invalidate :
      (f k : Key) (c : C)
      → is_fetching k (invalidate f c)
        ≡ (is_fetching k c || (is_active k c && matching.matches f k))
  pub fetches_lem :
      (q : QueryOptions) (now : ℕ) (c : C)
      → fetches q now c ≡ (
          (q.enabled && is_stale (stale_time_of q) now (entry q.key c))
          && not (is_fetching q.key c))

-- The invalidations of `onSuccess`, one after the other.
abbrev pub invalidate_all : {C : Type 0} → QueryCache C → List Key → C → C
invalidate_all l [] c = c
invalidate_all l (k ∷ ks) c = invalidate_all l ks (l.invalidate k c)

-- The cache after a mutation that resolved.
unfoldable pub on_success : {C : Type 0} → QueryCache C → Writer → C → C
unfolding invalidates
on_success l m c = invalidate_all l (invalidates m) c
