-- ===== src/Tests/Shared.antt =====
-- The focus trap on three elements.
use asset_tracker.Prelude.{◌≡◌, false, arith}
use asset_tracker.Shared.Modal.{item, tab, handle_key_down}
use asset_tracker.Shared.Laws.{moved, handle_key_down-cycles}

handle_key_down-cycles_example : moved false 2 (handle_key_down (tab false) 3 (item 2)) ≡ item 0
handle_key_down-cycles_example = (handle_key_down-cycles 3 2 (omega arith)).0
