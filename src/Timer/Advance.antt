-- ===== src/Timer/Advance.antt =====
-- `advance_slot` and `tick` keep the timer valid.
use visage_dvachevsky_tempre.Base.{
  ℕ, zero, suc, ◌+◌, ◌%◌, ◌^◌, ◌≡◌, refl, ◌∙◌, List, [], ◌∷◌, ◌++◌, get_or, ◌==◌, arith, All,
  length-set,
}
use mathlib.Core.Path.{subst}
use visage_dvachevsky_tempre.Timer.{
  compact_interval_ticks, open_slot, advance_from, Handle, WheelTimer, Call, perform, advance_slot,
  advance_slots, next_slot, countdown, ticks_of,
}
use visage_dvachevsky_tempre.Timer.Entries.{pointing, placed-set}
use visage_dvachevsky_tempre.Timer.Valid.{Moves, Moves-then}
use visage_dvachevsky_tempre.Timer.Valid.{IsValid}
use visage_dvachevsky_tempre.Timer.Acquire.{add_ticks-IsValid}
use visage_dvachevsky_tempre.Timer.Visit.{
  kept-IsValid, released-IsValid, pushed-IsValid, dropped-IsValid, cancel-IsValid,
}
use visage_dvachevsky_tempre.Timer.Steps.{Steps, visit_all-Moves}
use native.Mathlib.Nat.{mod-lt}

pub logged-IsValid :
    (wheel_size : ℕ) (names : List ℕ) (rest : List Handle) (t : WheelTimer)
    → IsValid wheel_size rest t
    → IsValid wheel_size rest (record t { called = names })
logged-IsValid wheel_size names rest t v = record {
  sized = v.sized;
  here = v.here;
  free = v.free;
  counted = v.counted;
  clean = v.clean;
  handles = v.handles;
}

pub All-units : {A : Type 0} (xs : List A) → All {0, 0} (λ x. Unit) xs
All-units [] = tt
All-units (x ∷ xs) = (tt, All-units xs)

module _ (wheel_size slot_ms : ℕ) (script : ℕ → List Call) where
  pub IsValid-steps : Steps wheel_size slot_ms script (IsValid wheel_size) (λ h. Unit) (λ c. Unit)
  IsValid-steps = record {
    performs = λ c rest t a. from c rest t;
    logs = λ name rest t v. logged-IsValid wheel_size (t.called ++ name ∷ []) rest t v;
    drops = λ h rest t o v. dropped-IsValid wheel_size h rest t v;
    pushes = λ slot h rest t o v. pushed-IsValid wheel_size slot h rest t v;
    counts = λ h rest t e o found a g v.
        kept-IsValid (countdown wheel_size slot_ms script) wheel_size (h ∷ rest) t h.index e found a
          a v;
    releases = λ h rest t e o found a g v. released-IsValid wheel_size h rest t e found a v;
  }
    where
      from :
          (c : Call) (rest : List Handle) (t : WheelTimer)
          → Moves
              (IsValid wheel_size rest)
              (IsValid wheel_size rest)
              t
              (perform wheel_size slot_ms script c t)
      from (Call.schedule timeout callback) rest t =
          add_ticks-IsValid wheel_size (ticks_of slot_ms timeout) callback rest t
      from (Call.unschedule id) rest t = cancel-IsValid wheel_size id rest t

  -- The slot's handles are taken out, to be visited.
  pub opened-IsValid :
      (t : WheelTimer) (counter : ℕ)
      → IsValid wheel_size [] t
      → IsValid wheel_size
          (get_or t.slots (next_slot wheel_size slot_ms script t) [])
          (open_slot wheel_size slot_ms script counter t)
  unfolding pointing
  opened-IsValid t counter v =
      let s : ℕ = next_slot wheel_size slot_ms script t in
      record {
        sized = length-set t.slots s [] ∙ v.sized;
        here = mod-lt (t.current_slot + 1) (omega (arith, v.here));
        free = v.free;
        counted = v.counted;
        clean = v.clean;
        handles = λ j. omega (arith, v.handles j, placed-set j s t.slots);
      }

  pub moved-IsValid :
      (t : WheelTimer)
      → IsValid wheel_size [] t
      → IsValid wheel_size []
          (record t { current_slot = next_slot wheel_size slot_ms script t; called = [] })
  moved-IsValid t v = record {
    sized = v.sized;
    here = mod-lt (t.current_slot + 1) (omega (arith, v.here));
    free = v.free;
    counted = v.counted;
    clean = v.clean;
    handles = v.handles;
  }

  pub advance_from-Moves :
      (t : WheelTimer) (hs : List Handle)
      → get_or t.slots (next_slot wheel_size slot_ms script t) [] ≡ hs
      → Moves
          (IsValid wheel_size [])
          (IsValid wheel_size [])
          t
          (advance_from wheel_size slot_ms script hs t)
  advance_from-Moves t [] q = (omega arith, λ v small. moved-IsValid t v)
  advance_from-Moves t (h ∷ hs) q =
      let counter : ℕ = (t.compact_tick_counter + 1) % 2 ^ 64 in
      let slot : ℕ = next_slot wheel_size slot_ms script t in
      let (long, valid) =
        visit_all-Moves wheel_size slot_ms script (IsValid wheel_size) (λ x. Unit) (λ c. Unit)
          IsValid-steps (λ name. All-units (script name)) (counter % compact_interval_ticks == 0)
          slot (h ∷ hs) (open_slot wheel_size slot_ms script counter t) (All-units (h ∷ hs)) in
      (
        long,
        λ v small.
            valid
              (subst (λ r. IsValid wheel_size r (open_slot wheel_size slot_ms script counter t)) q
                (opened-IsValid t counter v))
              small,
      )

  -- One slot on, with all that the callbacks do.
  pub advance_slot-Moves :
      (t : WheelTimer)
      → Moves
          (IsValid wheel_size [])
          (IsValid wheel_size [])
          t
          (advance_slot wheel_size slot_ms script t)
  unfolding advance_slot
  advance_slot-Moves t =
      advance_from-Moves t (get_or t.slots (next_slot wheel_size slot_ms script t) []) refl

  pub advance_slots-Moves :
      (n : ℕ) (t : WheelTimer)
      → Moves
          (IsValid wheel_size [])
          (IsValid wheel_size [])
          t
          (advance_slots wheel_size slot_ms script n t)
  unfolding advance_slots
  advance_slots-Moves zero t = (omega arith, λ v small. v)
  advance_slots-Moves (suc n) t =
      Moves-then (IsValid wheel_size []) (IsValid wheel_size []) (IsValid wheel_size []) t
        (advance_slots wheel_size slot_ms script n t) _ (advance_slots-Moves n t)
        (advance_slot-Moves (advance_slots wheel_size slot_ms script n t))
