-- ===== src/Timer/Expiration.antt =====
-- `time_until_next_expiration` of core/include/katana/core/wheel_timer.hpp. The times are in nanoseconds,
-- the result is in milliseconds.
use visage_dvachevsky_tempre.Base.{
  ℕ, suc, ◌+◌, ◌-◌, ◌*◌, ◌/◌, ◌^◌, min, none, some, List, [], ◌∷◌, get_elem?, leb, ◌==◌,
  if◌then◌else◌,
}
use visage_dvachevsky_tempre.Timer.{Handle, Entry, WheelTimer, is_stale}

-- `duration::max()`, in milliseconds.
abbrev pub duration_max : ℕ
duration_max = 2 ^ 63 - 1

-- The ticks that `time_until_next_expiration` counts for a slot.
abbrev pub slot_offset : ℕ → ℕ → ℕ → ℕ
slot_offset wheel_size current slot =
    if leb current slot then slot - current else wheel_size - (current - slot)

-- The handles of one slot against the best duration so far.
unfoldable pub best_handle : ℕ → ℕ → ℕ → ℕ → List Entry → List Handle → ℕ → ℕ
best_handle wheel_size slot_ms base offset entries [] best = best
best_handle wheel_size slot_ms base offset entries (h ∷ hs) best =
    let better : ℕ = elim (get_elem? entries h.index) [
      | none ↦ best
      | some e ↦
          if is_stale e h.generation
          then best
          else min best (base + (offset + e.remaining_rounds * wheel_size) * slot_ms)
    ] in
    best_handle wheel_size slot_ms base offset entries hs better

-- The slots from one on.
unfoldable pub best_slot : ℕ → ℕ → ℕ → ℕ → List Entry → ℕ → List (List Handle) → ℕ → ℕ
best_slot wheel_size slot_ms base current entries slot [] best = best
best_slot wheel_size slot_ms base current entries slot (hs ∷ rest) best =
    best_slot wheel_size slot_ms base current entries (suc slot) rest
      (best_handle wheel_size slot_ms base (slot_offset wheel_size current slot) entries hs best)

unfoldable pub time_until_next_expiration : ℕ → ℕ → ℕ → WheelTimer → ℕ
time_until_next_expiration wheel_size slot_ms now t =
    let since = (now - t.last_tick) / 1000000 in
    let base = slot_ms - min slot_ms since in
    if t.pending_entries == 0
    then duration_max
    else best_slot wheel_size slot_ms base t.current_slot t.entries 0 t.slots duration_max
