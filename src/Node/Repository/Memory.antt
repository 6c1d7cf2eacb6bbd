-- ===== src/Node/Repository/Memory.antt =====
-- A collection that keeps its documents in a list and sorts each answer as it is asked to: a longer
-- text counts as later, which is enough of an order for what `Collection` asks.
use mathlib.Core.List.{Perm}
use mathlib.Core.List.Perm
use asset_tracker.Prelude.{
  ℕ, ◌≡◌, inl, inr, Bool, true, false, Option, some, refl, List, [], ◌∷◌, String, arith, filter,
  leb, if◌then◌else◌, Bool-cases, subst,
}
use asset_tracker.Settings.Panel.{size}
use asset_tracker.Node.Value.{Value, text, Fields}
use asset_tracker.Node.Repository.{
  Collection, equals, value_of, Sort, unsorted, by, ascending, descending, may_precede, IsOrdered,
}

abbrev rank : Value → ℕ
rank (text s) = size s
rank v = 0

abbrev pub not_before : Value → Value → Bool
not_before v w = leb (rank w) (rank v)

module _ (before : Fields → Fields → Bool) where
  abbrev pub insert_sorted : Fields → List Fields → List Fields
  insert_sorted e [] = e ∷ []
  insert_sorted e (f ∷ fs) =
      let rest = insert_sorted e fs in if before e f then e ∷ (f ∷ fs) else f ∷ rest

  abbrev pub sort : List Fields → List Fields
  sort [] = []
  sort (e ∷ es) = insert_sorted e (sort es)

  insert_sorted-Perm : (e : Fields) (l : List Fields) → Perm (insert_sorted e l) (e ∷ l)
  insert_sorted-Perm e [] = Perm.refl _
  insert_sorted-Perm e (f ∷ fs) = elim (Bool-cases (before e f)) [
    | inl h ↦ rw h (Perm.refl _)
    | inr h ↦ rw h (Perm.trans (Perm.cons f (insert_sorted-Perm e fs)) (Perm.swap e f fs))
  ]

  pub sort-Perm : (l : List Fields) → Perm (sort l) l
  sort-Perm [] = Perm.refl _
  sort-Perm (e ∷ es) = Perm.trans (insert_sorted-Perm e (sort es)) (Perm.cons e (sort-Perm es))

  -- What a sorted list keeps when it is put behind a document that may precede the inserted one.
  insert_sorted-behind :
      (g e : Fields) (l : List Fields)
      → before g e ≡ true
      → IsOrdered before (g ∷ l)
      → IsOrdered before (insert_sorted e l)
      → IsOrdered before (g ∷ insert_sorted e l)
  insert_sorted-behind g e [] h k d = (h, tt)
  insert_sorted-behind g e (f ∷ fs) h k d = elim (Bool-cases (before e f)) [
    | inl b ↦ rw b (h, (b, k.1))
    | inr b ↦ rw b (k.0, rw b at d)
  ]

  tail-IsOrdered : (g : Fields) (l : List Fields) → IsOrdered before (g ∷ l) → IsOrdered before l
  tail-IsOrdered g [] d = tt
  tail-IsOrdered g (x ∷ l) (h, k) = k

  module _ (total : (d e : Fields) → before d e ≡ false → before e d ≡ true) where
    insert_sorted-IsOrdered :
        (e : Fields) (l : List Fields) → IsOrdered before l → IsOrdered before (insert_sorted e l)
    insert_sorted-IsOrdered e [] d = tt
    insert_sorted-IsOrdered e (f ∷ fs) d = elim (Bool-cases (before e f)) [
      | inl b ↦ rw b (b, d)
      | inr b ↦ rw b (
          insert_sorted-behind f e fs (total e f b) d
            (insert_sorted-IsOrdered e fs (tail-IsOrdered f fs d)))
    ]

    pub sort-IsOrdered : (l : List Fields) → IsOrdered before (sort l)
    sort-IsOrdered [] = tt
    sort-IsOrdered (e ∷ es) = insert_sorted-IsOrdered e (sort es) (sort-IsOrdered es)

later_of_not : (v w : Value) → not_before v w ≡ false → not_before w v ≡ true
later_of_not v w h = ground arith

either_precedes :
    (o : Sort) (d e : Fields)
    → may_precede not_before o d e ≡ false
    → may_precede not_before o e d ≡ true
either_precedes unsorted d e h = refl
either_precedes (by key ascending) d e h = later_of_not (value_of key e) (value_of key d) h
either_precedes (by key descending) d e h = later_of_not (value_of key d) (value_of key e) h

abbrev pub find_in : (key text : String) → Sort → List Fields → Option (List Fields)
find_in key t o s =
    some (sort (may_precede not_before o) (filter (λ d. equals t (value_of key d)) s))

pub find_in-found :
    (key t : String) (o : Sort) (s ds : List Fields)
    → find_in key t o s ≡ some ds
    → Perm ds (filter (λ d. equals t (value_of key d)) s) × IsOrdered (may_precede not_before o) ds
find_in-found key t o s ds h =
    let kept = filter (λ d. equals t (value_of key d)) s in
    let before = may_precede not_before o in
    let same : sort before kept ≡ ds = cc in
    subst (λ l. Perm l kept × IsOrdered before l) same
      (sort-Perm before kept, sort-IsOrdered before (either_precedes o) kept)

pub always : (P : Type 0) → true ≡ false → P
always P h = absurd (cc)

abbrev pub memory : Collection (List Fields)
memory = record {
  insert_one = λ d s. (true, d ∷ s);
  find = find_in;
  documents = λ s. s;
  not_before = not_before;
  inserted = λ d s h. Perm.refl _;
  not_inserted = λ d s h. always _ h;
  found = find_in-found;
}
