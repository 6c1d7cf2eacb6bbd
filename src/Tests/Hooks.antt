-- ===== src/Tests/Hooks.antt =====
-- The keys of the queries, with a query library that compares keys part by part.
use asset_tracker.Prelude.{
  Option, ◌||◌, ◌≡◌, refl, ◌≢◌, Bool, true, false, not, none, some, [], ◌∷◌, ◌==◌, eq_iff, arith,
  ◌&&◌,
}
use asset_tracker.Hooks.{Part, part, undefined, Key, Matching, stale_time_of}
use asset_tracker.Hooks.Calls.{deleted_devices, deletes_device, options}
use asset_tracker.Hooks.Cache.{Entry, mark, is_stale, QueryCache, on_success}
use asset_tracker.Hooks.CacheLaws.{concerns, fetches-concerns}

abbrev pub same_part : Part → Part → Bool
same_part undefined undefined = true
same_part (part a) (part b) = a == b
same_part _ _ = false

abbrev pub begins : Key → Key → Bool
begins [] k = true
begins (p ∷ f) [] = false
begins (p ∷ f) (q ∷ k) = same_part p q && begins f k

pub same_part_refl : (p : Part) → same_part p p ≡ true
same_part_refl undefined = refl
same_part_refl (part a) = ground (arith, eq_iff a a)

pub same_part_ne : (p q : Part) → p ≢ q → same_part p q ≡ false
same_part_ne undefined undefined h = absurd (h refl)
same_part_ne undefined (part b) h = refl
same_part_ne (part a) undefined h = refl
same_part_ne (part a) (part b) h = ground (arith, eq_iff a b)

pub begins_cons : (p : Part) (f k : Key) → begins (p ∷ f) (p ∷ k) ≡ begins f k
begins_cons p f k = ground (arith, same_part_refl p)

pub begins_ne : (p q : Part) (f k : Key) → p ≢ q → begins (p ∷ f) (q ∷ k) ≡ false
begins_ne p q f k h = ground (arith, same_part_ne p q h)

abbrev pub library : Matching
library = record {
  matches = begins;
  matches_nil = λ k. refl;
  matches_cons = begins_cons;
  matches_ne = begins_ne;
  matches_longer = λ p f. refl;
}

-- A cache that is a function from keys to entries, with the keys that are active and being fetched.
pub record Entries : Type 0 where
  pub entries : Key → Option Entry
  pub active : Key → Bool
  pub fetching : Key → Bool

abbrev pub cache : QueryCache Entries
cache = record {
  matching = library;
  entry = λ k c. c.entries k;
  is_active = λ k c. c.active k;
  is_fetching = λ k c. c.fetching k;
  invalidate = λ f c. record c {
    entries = λ j. mark (begins f j) (c.entries j);
    fetching = λ j. c.fetching j || (c.active j && begins f j);
  };
  fetches = λ q now c.
      (q.enabled && is_stale (stale_time_of q) now (c.entries q.key)) && not (c.fetching q.key);
  entry-invalidate = λ f k c. refl;
  is_active-invalidate = λ f k c. refl;
  is_fetching-invalidate = λ f k c. refl;
  fetches_lem = λ q now c. refl;
}

-- A page that shows the queries of devices, with nothing fetched yet.
abbrev pub shown : Entries
shown = record {
  entries = λ k. none;
  active = λ k. begins (part "devices" ∷ []) k;
  fetching = λ k. false;
}

fetches-concerns_example :
    let o = options deleted_devices (some "t") in
    let after = on_success cache (deletes_device "d") shown in
    (cache.is_fetching o.key after ≡ (
      cache.is_fetching o.key shown
      || (cache.is_active o.key shown && concerns (deletes_device "d") deleted_devices)))
    × (cache.fetches o 7 after ≡ (
        (o.enabled
          && (concerns (deletes_device "d") deleted_devices
              || is_stale (stale_time_of o) 7 (cache.entry o.key shown)))
        && not (cache.is_fetching o.key after)))
fetches-concerns_example =
    fetches-concerns cache (deletes_device "d") deleted_devices (some "t") 7 shown
