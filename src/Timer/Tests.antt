-- ===== src/Timer/Tests.antt =====
-- The theorems on the timer at concrete inputs.
use visage_dvachevsky_tempre.Base.{
  ℕ, ◌^◌, ◌≤◌, ◌<◌, ◌≡◌, ◌≢◌, true, false, none, some, List, [], ◌∷◌, length, arith,
}
use visage_dvachevsky_tempre.Timer.{
  Handle, WheelTimer, Call, new_timer, add_ticks, cancel, decode_id, advance_slots, advance_slot,
  visit_all, visit, run_callback, perform_calls, acquire_entry, release_entry, ticks_of,
  next_generation, tick,
}
use visage_dvachevsky_tempre.Timer.Entries.{occurrences}
use visage_dvachevsky_tempre.Timer.Valid.{new_timer-IsValid}
use visage_dvachevsky_tempre.Timer.Liveness.{awaited, deadline}
use visage_dvachevsky_tempre.Timer.Deadline.{add_ticks-called}
use visage_dvachevsky_tempre.Timer.Ticking.{Ticked, tick_lem, IsHeld, cancel_lem}

-- Every callback starts another timer.
abbrev restart : ℕ → List Call
restart name = Call.schedule 20 8 ∷ []

abbrev wheel : WheelTimer
wheel = new_timer 4 0

few_entries :
    length (advance_slots 4 10 restart (deadline 4 5) (add_ticks 4 5 7 wheel).1).entries ≤ 2 ^ 32
unfolding advance_slots advance_slot visit_all visit run_callback perform_calls add_ticks
    acquire_entry release_entry new_timer ticks_of next_generation
few_entries = omega arith

add_ticks-called_example :
    ((n : ℕ)
      → n < deadline 4 5
      → awaited (add_ticks 4 5 7 wheel).0 (advance_slots 4 10 restart n (add_ticks 4 5 7 wheel).1)
        ≡ some 7)
    × (0
        < occurrences 7
            (advance_slots 4 10 restart (deadline 4 5) (add_ticks 4 5 7 wheel).1).called)
add_ticks-called_example =
    add_ticks-called 4 10 restart 5 7 wheel (new_timer-IsValid 4 0 (omega arith)) (λ name. (tt, tt))
      few_entries

few_ticked : length (tick 4 10 restart 25000000 wheel).entries ≤ 2 ^ 32
unfolding tick advance_slots advance_slot new_timer
few_ticked = omega arith

no_ticks : wheel.last_tick ≤ 25000000
unfolding new_timer
no_ticks = omega arith

tick_lem_example : Ticked 4 10 restart 25000000 wheel (tick 4 10 restart 25000000 wheel)
tick_lem_example =
    tick_lem 4 10 restart 25000000 wheel (new_timer-IsValid 4 0 (omega arith)) (omega arith)
      no_ticks few_ticked

-- The timer with the id 2^32: index 0, generation 1.
abbrev running : WheelTimer
running = (add_ticks 4 5 7 wheel).1

cancel_lem_example :
    ((cancel 4294967296 running).0 ≡ true
      → IsHeld (decode_id 4294967296) running
        × (awaited (decode_id 4294967296) (cancel 4294967296 running).1 ≡ none)
        × ((k : Handle)
            → k.index ≢ (decode_id 4294967296).index
            → awaited k (cancel 4294967296 running).1 ≡ awaited k running))
    × ((cancel 4294967296 running).0 ≡ false
        → (¬ (IsHeld (decode_id 4294967296) running))
          × ((cancel 4294967296 running).1 ≡ running)
          × (awaited (decode_id 4294967296) running ≡ none))
cancel_lem_example = cancel_lem 4294967296 running
