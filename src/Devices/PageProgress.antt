-- ===== src/Devices/PageProgress.antt =====
-- The deletions that are under way on the devices page come to an end.
use asset_tracker.Prelude.{ℕ, zero, suc, ◌≤◌, ◌*◌, ◌≡◌, refl, false, List, [], ◌∷◌, length, arith}
use asset_tracker.Forms.Device.{Device}
use asset_tracker.Devices.Page.{
  Phase, deleting, waiting, invalidating, DevicesPage, resolves, update,
}
use asset_tracker.Devices.PageLaws.{Reachable, Reachable-IsOrderly}

-- What the first deletion under way waits for resolves, so many times in a row.
abbrev pub drive : List Device → ℕ → DevicesPage → DevicesPage
drive ds zero s = s
drive ds (suc n) s = drive ds n (update ds (resolves 0) s)

-- How many waits are left.
abbrev pub waits : List Phase → ℕ
waits [] = 0
waits (deleting ∷ ts) = suc (suc (suc (waits ts)))
waits (waiting ∷ ts) = suc (suc (waits ts))
waits (invalidating ∷ ts) = suc (waits ts)

waits-le : (ts : List Phase) → waits ts ≤ 3 * length ts
waits-le [] = omega arith
waits-le (deleting ∷ ts) = omega (arith, waits-le ts)
waits-le (waiting ∷ ts) = omega (arith, waits-le ts)
waits-le (invalidating ∷ ts) = omega (arith, waits-le ts)

module _ (ds : List Device) where
  deleting_step :
      (s : DevicesPage) (ts : List Phase)
      → s.tasks ≡ deleting ∷ ts
      → (update ds (resolves 0) s).tasks ≡ waiting ∷ ts
  unfolding update
  deleting_step s ts h = ground arith

  waiting_step :
      (s : DevicesPage) (ts : List Phase)
      → s.tasks ≡ waiting ∷ ts
      → (update ds (resolves 0) s).tasks ≡ invalidating ∷ ts
  unfolding update
  waiting_step s ts h = ground arith

  invalidating_step :
      (s : DevicesPage) (ts : List Phase)
      → s.tasks ≡ invalidating ∷ ts
      → ((update ds (resolves 0) s).tasks ≡ ts)
        × ((update ds (resolves 0) s).is_refreshing_deleted ≡ false)
  unfolding update
  invalidating_step s ts h = ground arith

  driven :
      (ts : List Phase) (s : DevicesPage)
      → s.tasks ≡ ts
      → (ts ≡ [] → s.is_refreshing_deleted ≡ false)
      → ((drive ds (waits ts) s).tasks ≡ [])
        × ((drive ds (waits ts) s).is_refreshing_deleted ≡ false)
  driven [] s h quiet = (h, quiet refl)
  driven (invalidating ∷ ts) s h quiet =
      let (t, f) = invalidating_step s ts h in driven ts _ t (λ _. f)
  driven (waiting ∷ ts) s h quiet =
      let (t, f) = invalidating_step _ ts (waiting_step s ts h) in driven ts _ t (λ _. f)
  driven (deleting ∷ ts) s h quiet =
      let (t, f) = invalidating_step _ ts (waiting_step _ ts (deleting_step s ts h)) in
      driven ts _ t (λ _. f)

  -- From every state that the page reaches, the deletions under way end if their waits resolve:
  -- after at most three resolutions for each of them no deletion is under way and the refreshing
  -- mark is gone.
  pub Reachable-drive :
      {s : DevicesPage}
      → Reachable ds s
      → (n : ℕ) × (n ≤ 3 * length s.tasks)
        × ((drive ds n s).tasks ≡ [])
        × ((drive ds n s).is_refreshing_deleted ≡ false)
  Reachable-drive {s} r =
      let (t, f) = driven s.tasks s refl (Reachable-IsOrderly ds r).quiet in
      (waits s.tasks, waits-le s.tasks, t, f)
