-- ===== src/Tests/Settings.antt =====
-- The intervals, with conversions that write a number in unary.
use Prim.Native.String
use asset_tracker.Prelude.{ℕ, zero, suc, ◌≡◌, refl, true, false, none, some, [], String, ap, ◌∙◌}
use text.Mathlib.TextLemmas.{nil-append, cons-append}
use asset_tracker.Number.{Number, nan, infinity, neg_infinity, whole, negative, is_finite}
use asset_tracker.Storage.{Storage}
use asset_tracker.Settings.{Conversions, mount, is_valid}
use asset_tracker.Settings.Panel.{Panel, save_intervals}
use asset_tracker.Settings.Laws.{mounted, IsSaved, Reachable-IsSaved}
use asset_tracker.Settings.Saving.{save_intervals-mount}

-- Every second character counts; an odd one at the end makes the number negative.
abbrev further : Number → Number
further (whole n) = whole (suc n)
further (negative n) = negative (suc n)
further a = a

abbrev read : String → Number
read String.[] = whole 0
read (String.◌∷◌ c String.[]) = negative 0
read (String.◌∷◌ c (String.◌∷◌ d s)) = further (read s)

abbrev strokes : ℕ → String → String
strokes zero s = s
strokes (suc n) s = String.◌++◌ "11" (strokes n s)

abbrev write : Number → String
write (whole n) = strokes n ""
write (negative n) = strokes n "1"
write _ = ""

read_stroke : (s : String) → read (String.◌++◌ "11" s) ≡ further (read s)
read_stroke s = rw (cons-append, cons-append, nil-append) refl

read-strokes : (n : ℕ) → (read (strokes n "") ≡ whole n) × (read (strokes n "1") ≡ negative n)
read-strokes zero = (refl, refl)
read-strokes (suc n) =
    let (h, k) = read-strokes n in
    (read_stroke (strokes n "") ∙ ap further h, read_stroke (strokes n "1") ∙ ap further k)

pub round_trip : (n : Number) → is_finite n ≡ true → read (write n) ≡ n
round_trip (whole n) h = (read-strokes n).0
round_trip (negative n) h = (read-strokes n).1
round_trip nan h = absurd (cc)
round_trip infinity h = absurd (cc)
round_trip neg_infinity h = absurd (cc)

abbrev pub unary : Conversions
unary = record { to_number = read; to_text = write; round_trip = round_trip }

abbrev empty : Storage
empty = record { denied = false; items = [] }

Reachable-IsSaved_example :
    IsSaved unary (mount unary empty)
    × (is_valid (mount unary empty).health_interval ≡ true)
    × (is_valid (mount unary empty).metrics_interval ≡ true)
Reachable-IsSaved_example = Reachable-IsSaved unary (mounted empty)

abbrev edited : Panel
edited = record {
  edit_health = whole 3000;
  edit_metrics = whole 4000;
  health_error = some "Minimum 1000ms";
  metrics_error = none;
  saved = false;
}

save_intervals-mount_example :
    (save_intervals unary edited (mount unary empty)).1.health_interval ≡ whole 3000
unfolding mount
save_intervals-mount_example =
    (save_intervals-mount unary edited (mount unary empty) (mounted empty) refl refl refl).0
