-- ===== src/Hooks/CacheLaws.antt =====
-- What a mutation makes the queries fetch again.
use asset_tracker.Prelude.{
  ℕ, ◌≡◌, refl, ◌∙◌, ap, Bool, true, false, not, ◌&&◌, ◌||◌, Option, none, some, List, [], ◌∷◌,
  String, eq_iff, arith, any,
}
use asset_tracker.Hooks.{
  part, optional, Key, QueryOptions, stale_time_of, Matching, invalidated, use_devices, use_device,
  use_events, use_deleted_devices, create_device_invalidates, update_device_invalidates,
  delete_device_invalidates, create_event_invalidates,
}
use asset_tracker.Hooks.Laws.{reaches, misses, part-ne}
use asset_tracker.Hooks.Calls.{
  Writer, creates_device, updates_device, deletes_device, creates_event, Reader, devices,
  deleted_devices, device, events, options, invalidates,
}
use asset_tracker.Hooks.Cache.{Entry, mark, is_stale, QueryCache, invalidate_all, on_success}

is_stale-mark :
    (b : Bool) (s now : ℕ) (o : Option Entry) → is_stale s now (mark b o) ≡ (b || is_stale s now o)
is_stale-mark true s now none = refl
is_stale-mark false s now none = refl
is_stale-mark true s now (some e) = refl
is_stale-mark false s now (some e) = refl

or_false : (b : Bool) → (b || false) ≡ b
or_false true = refl
or_false false = refl

module _ {C : Type 0} (l : QueryCache C) where
  is_stale-invalidate_all :
      (ks : List Key) (k : Key) (s now : ℕ) (c : C)
      → is_stale s now (l.entry k (invalidate_all l ks c))
        ≡ (any (λ f. l.matching.matches f k) ks || is_stale s now (l.entry k c))
  is_stale-invalidate_all [] k s now c = refl
  is_stale-invalidate_all (f ∷ ks) k s now c =
      is_stale-invalidate_all ks k s now (l.invalidate f c)
      ∙ ap (λ o. any (λ g. l.matching.matches g k) ks || is_stale s now o)
          (l.entry-invalidate f k c)
      ∙ ap (λ b. any (λ g. l.matching.matches g k) ks || b)
          (is_stale-mark (l.matching.matches f k) s now (l.entry k c))
      ∙ swap (any (λ g. l.matching.matches g k) ks) (l.matching.matches f k)
          (is_stale s now (l.entry k c))
    where
      swap : (a b d : Bool) → (a || (b || d)) ≡ ((b || a) || d)
      swap true true d = refl
      swap true false d = refl
      swap false true d = refl
      swap false false d = refl

  is_fetching-invalidate_all :
      (ks : List Key) (k : Key) (c : C)
      → l.is_fetching k (invalidate_all l ks c)
        ≡ (l.is_fetching k c || (l.is_active k c && any (λ f. l.matching.matches f k) ks))
  is_fetching-invalidate_all [] k c = none_more (l.is_fetching k c) (l.is_active k c)
    where
      none_more : (a b : Bool) → a ≡ (a || (b && false))
      none_more true b = refl
      none_more false true = refl
      none_more false false = refl
  is_fetching-invalidate_all (f ∷ ks) k c = ground (
    arith,
    is_fetching-invalidate_all ks k (l.invalidate f c),
    l.is_fetching-invalidate f k c,
    l.is_active-invalidate f k c,
  )

  -- What invalidating some keys does to a query.
  invalidated_query :
      (ks : List Key) (q : QueryOptions) (now : ℕ) (c : C)
      → let after = invalidate_all l ks c in
        let reached = any (λ f. l.matching.matches f q.key) ks in
        (l.is_fetching q.key after ≡ (l.is_fetching q.key c || (l.is_active q.key c && reached)))
        × (l.fetches q now after ≡ (
            (q.enabled && (reached || is_stale (stale_time_of q) now (l.entry q.key c)))
            && not (l.is_fetching q.key after)))
  invalidated_query ks q now c = (
    is_fetching-invalidate_all ks q.key c,
    l.fetches_lem q now (invalidate_all l ks c)
        ∙ ap (λ b. (q.enabled && b) && not (l.is_fetching q.key (invalidate_all l ks c)))
            (is_stale-invalidate_all ks q.key (stale_time_of q) now c),
  )

  -- A query that is enabled and reached is fetched at once if it is active, and otherwise at a mount
  -- before its next answer.
  pub reached_query :
      (ks : List Key) (q : QueryOptions) (now : ℕ) (c : C)
      → q.enabled ≡ true
      → any (λ f. l.matching.matches f q.key) ks ≡ true
      → let after = invalidate_all l ks c in
        (l.is_fetching q.key after ≡ (l.is_fetching q.key c || l.is_active q.key c))
        × ((l.is_fetching q.key after || l.fetches q now after) ≡ true)
  reached_query ks q now c on reached =
      let (a, b) = invalidated_query ks q now c in (ground arith, ground arith)

abbrev pub of_devices : Reader → Bool
of_devices devices = true
of_devices (device id) = true
of_devices (events d) = false
of_devices deleted_devices = false

abbrev pub of_events : Reader → Bool
of_events devices = false
of_events (device id) = false
of_events (events d) = true
of_events deleted_devices = true

-- The queries whose answers a mutation changes.
abbrev pub concerns : Writer → Reader → Bool
concerns (creates_event input) q = of_events q
concerns m q = of_devices q

module _ (m : Matching) where
  devices_reach :
      (q : Reader) (token : Option String)
      → m.matches (part "devices" ∷ []) (options q token).key ≡ of_devices q
  unfolding options use_devices use_device use_events use_deleted_devices
  devices_reach devices token = reaches m "devices" []
  devices_reach (device id) token = reaches m "devices" (part id ∷ [])
  devices_reach (events d) token =
      misses m "devices" "events" (optional d ∷ []) (ground (arith, eq_iff "devices" "events"))
  devices_reach deleted_devices token =
      misses m "devices" "events" (part "device.deleted" ∷ [])
        (ground (arith, eq_iff "devices" "events"))

  events_reach :
      (q : Reader) (token : Option String)
      → m.matches (part "events" ∷ []) (options q token).key ≡ of_events q
  unfolding options use_devices use_device use_events use_deleted_devices
  events_reach devices token =
      misses m "events" "devices" [] (ground (arith, eq_iff "events" "devices"))
  events_reach (device id) token =
      misses m "events" "devices" (part id ∷ []) (ground (arith, eq_iff "events" "devices"))
  events_reach (events d) token = reaches m "events" (optional d ∷ [])
  events_reach deleted_devices token = reaches m "events" (part "device.deleted" ∷ [])

  -- The key of the one device that an update names adds nothing to the key of all.
  one_device_reach :
      (id : String) (q : Reader) (token : Option String)
      → (of_devices q || m.matches (part "devices" ∷ part id ∷ []) (options q token).key)
        ≡ of_devices q
  unfolding options use_devices use_device use_events use_deleted_devices
  one_device_reach id devices token = refl
  one_device_reach id (device other) token = refl
  one_device_reach id (events d) token =
      m.matches_ne (part "devices") (part "events") (part id ∷ []) (optional d ∷ [])
        (part-ne "devices" "events" (ground (arith, eq_iff "devices" "events")))
  one_device_reach id deleted_devices token =
      m.matches_ne (part "devices") (part "events") (part id ∷ []) (part "device.deleted" ∷ [])
        (part-ne "devices" "events" (ground (arith, eq_iff "devices" "events")))

  invalidated-concerns :
      (x : Writer) (q : Reader) (token : Option String)
      → invalidated m (invalidates x) (options q token).key ≡ concerns x q
  unfolding invalidated invalidates create_device_invalidates update_device_invalidates
      delete_device_invalidates create_event_invalidates
  invalidated-concerns (creates_event input) q token =
      ap (λ b. b || false) (events_reach q token) ∙ or_false (of_events q)
  invalidated-concerns (creates_device input) q token =
      ap (λ b. b || false) (devices_reach q token) ∙ or_false (of_devices q)
  invalidated-concerns (deletes_device id) q token =
      ap (λ b. b || false) (devices_reach q token) ∙ or_false (of_devices q)
  invalidated-concerns (updates_device id input) q token =
      let k = (options q token).key in
      let one = m.matches (part "devices" ∷ part id ∷ []) k in
      ap (λ b. m.matches (part "devices" ∷ []) k || b) (or_false one)
      ∙ ap (λ b. b || one) (devices_reach q token)
      ∙ one_device_reach id q token

module _ {C : Type 0} (l : QueryCache C) where
  -- The success of a mutation on devices reaches exactly the queries of devices, the list and each
  -- single device, and that of a mutation on events exactly the queries of events, those of every
  -- device and that of the deleted ones. Of these, the ones that a mounted component asks for are
  -- fetched at once; one that is enabled and not being fetched fetches at a mount before its next
  -- answer, at whatever time. No other query starts to be fetched, and each fetches at a mount just
  -- if it is enabled, stale and not being fetched.
  pub fetches-concerns :
      (x : Writer) (q : Reader) (token : Option String) (now : ℕ) (c : C)
      → let o = options q token in
        let after = on_success l x c in
        (l.is_fetching o.key after
          ≡ (l.is_fetching o.key c || (l.is_active o.key c && concerns x q)))
        × (l.fetches o now after ≡ (
            (o.enabled && (concerns x q || is_stale (stale_time_of o) now (l.entry o.key c)))
            && not (l.is_fetching o.key after)))
  unfolding on_success invalidated
  fetches-concerns x q token now c =
      let o = options q token in
      rw (invalidated-concerns l.matching x q token) at
        (invalidated_query l (invalidates x) o now c)

  pub reached-concerns :
      (x : Writer) (q : Reader) (token : Option String) (now : ℕ) (c : C)
      → (options q token).enabled ≡ true
      → concerns x q ≡ true
      → let o = options q token in
        let after = on_success l x c in
        (l.is_fetching o.key after ≡ (l.is_fetching o.key c || l.is_active o.key c))
        × ((l.is_fetching o.key after || l.fetches o now after) ≡ true)
  unfolding on_success invalidated
  reached-concerns x q token now c on here =
      reached_query l (invalidates x) (options q token) now c on
        (invalidated-concerns l.matching x q token ∙ here)
