-- ===== src/Timer.antt =====
-- `class wheel_timer` of core/include/katana/core/wheel_timer.hpp. A callback is a name; what it calls on
-- the timer when it runs is an argument, `script`. `called` logs the callbacks of the last slot, and is
-- not part of the class. A negative timeout stands as 0, which the code treats alike. The reserves of
-- the vectors and the prefetches have no effect that the model has.
pub mod Expiration
pub mod Entries
pub mod Valid
pub mod Acquire
pub mod Visit
pub mod Steps
pub mod Advance
pub mod Waits
pub mod Fires
pub mod Due
pub mod Liveness
pub mod Deadline
pub mod Ticking
mod Tests
use visage_dvachevsky_tempre.Base.{
  ℕ, zero, suc, ◌+◌, ◌-◌, ◌*◌, ◌/◌, ◌%◌, ◌^◌, min, Bool, true, false, not, ◌||◌, Option, none, some,
  List, [], ◌∷◌, ◌++◌, length, get_elem?, get_or, set, modify, replicate, ltb, leb, ◌==◌,
  if◌then◌else◌,
}

-- `slot_handle`
pub record Handle : Type 0 where
  pub index : ℕ
  pub generation : ℕ

-- `entry_data`; a callback that was moved from, or never set, is none.
pub record Entry : Type 0 where
  pub callback : Option ℕ
  pub remaining_rounds : ℕ
  pub slot_idx : ℕ
  pub generation : ℕ
  pub active : Bool
  pub cancelled : Bool

-- The last element of the vector `free_list_` stands first.
pub record WheelTimer : Type 0 where
  pub slots : List (List Handle)
  pub entries : List Entry
  pub free_list : List ℕ
  pub current_slot : ℕ
  pub last_tick : ℕ
  pub pending_entries : ℕ
  pub compact_tick_counter : ℕ
  pub called : List ℕ

-- What a callback calls on the timer.
pub data Call : Type 0 where
  schedule : (timeout callback : ℕ) → Call
  unschedule : (id : ℕ) → Call

abbrev pub compact_interval_ticks : ℕ
compact_interval_ticks = 8

abbrev pub new_entry : Entry
new_entry = record {
  callback = none;
  remaining_rounds = 0;
  slot_idx = 0;
  generation = 1;
  active = false;
  cancelled = false;
}

-- `wheel_timer()` with a number of slots, at the time `now`.
unfoldable pub new_timer : ℕ → ℕ → WheelTimer
new_timer wheel_size now = record {
  slots = replicate wheel_size [];
  entries = [];
  free_list = [];
  current_slot = 0;
  last_tick = now;
  pending_entries = 0;
  compact_tick_counter = 0;
  called = [];
}

unfoldable pub make_id : Handle → ℕ
make_id h = h.generation * 2 ^ 32 + h.index

unfoldable pub decode_id : ℕ → Handle
decode_id id = record { index = id % 2 ^ 32; generation = id / 2 ^ 32 }

-- The generation after an entry's, which is never 0.
unfoldable pub next_generation : ℕ → ℕ
next_generation g = let n = (g + 1) % 2 ^ 32 in if n == 0 then 1 else n

abbrev pub renew : Entry → Entry
renew e = record e { generation = next_generation e.generation }

-- Without a free entry there is a new one.
abbrev pub acquire_from : List ℕ → WheelTimer → ℕ × WheelTimer
acquire_from [] t = (
  length t.entries % 2 ^ 32,
  record t { entries = t.entries ++ new_entry ∷ []; pending_entries = t.pending_entries + 1 },
)
acquire_from (index ∷ rest) t = (
  index,
  record t {
    entries = modify renew index t.entries;
    free_list = rest;
    pending_entries = t.pending_entries + 1;
  },
)

unfoldable pub acquire_entry : WheelTimer → ℕ × WheelTimer
acquire_entry t = acquire_from t.free_list t

abbrev pub retire : Entry → Entry
retire e = record e {
  active = false;
  cancelled = false;
  callback = none;
  remaining_rounds = 0;
  slot_idx = 0;
}

unfoldable pub release_entry : ℕ → WheelTimer → WheelTimer
release_entry index t = record t {
  entries = modify retire index t.entries;
  free_list = index ∷ t.free_list;
  pending_entries = t.pending_entries - 1;
}

-- `slots_[slot].handles.push_back(handle)`
abbrev pub push_handle : ℕ → Handle → WheelTimer → WheelTimer
push_handle slot h t = record t { slots = modify (λ hs. hs ++ h ∷ []) slot t.slots }

abbrev pub arm : ℕ → ℕ → ℕ → Entry → Entry
arm rounds slot callback e = record e {
  callback = some callback;
  remaining_rounds = rounds;
  slot_idx = slot;
  active = true;
}

-- The slots that a timeout is away, counted up.
unfoldable pub ticks_of : ℕ → ℕ → ℕ
ticks_of slot_ms timeout =
    let n = if timeout == 0 then 1 else timeout in
    let ticks = (n + slot_ms - 1) % 2 ^ 64 / slot_ms in if ticks == 0 then 1 else ticks

-- `add` behind the test of its callback, with the ticks of the timeout.
unfoldable pub add_ticks : ℕ → ℕ → ℕ → WheelTimer → Handle × WheelTimer
add_ticks wheel_size ticks callback t =
    let target = (t.current_slot + ticks % wheel_size) % wheel_size in
    let (index, u) = acquire_entry t in
    let armed : WheelTimer = record u {
      entries = modify (arm (ticks / wheel_size) target callback) index u.entries;
    } in
    let h : Handle = record {
      index = index;
      generation = (get_or u.entries index new_entry).generation;
    } in
    (h, push_handle target h armed)

-- An empty callback is refused by an exception.
unfoldable pub add : ℕ → ℕ → ℕ → Option ℕ → WheelTimer → Option (ℕ × WheelTimer)
add wheel_size slot_ms timeout none t = none
add wheel_size slot_ms timeout (some callback) t =
    let (h, u) = add_ticks wheel_size (ticks_of slot_ms timeout) callback t in some (make_id h, u)

abbrev pub mark_cancelled : Entry → Entry
mark_cancelled e = record e { cancelled = true }

abbrev pub is_stale : Entry → ℕ → Bool
is_stale e generation = not e.active || not (e.generation == generation)

unfoldable pub cancel : ℕ → WheelTimer → Bool × WheelTimer
cancel id t =
    let h = decode_id id in
    elim (get_elem? t.entries h.index) [
      | none ↦ (false, t)
      | some e ↦
          if is_stale e h.generation
          then (false, t)
          else (true, record t { entries = modify mark_cancelled h.index t.entries })
    ]

-- The template's arguments and what the callbacks do.
module _ (wheel_size slot_ms : ℕ) (script : ℕ → List Call) where
  abbrev pub perform : Call → WheelTimer → WheelTimer
  perform (Call.schedule timeout callback) t =
      (add_ticks wheel_size (ticks_of slot_ms timeout) callback t).1
  perform (Call.unschedule id) t = (cancel id t).1

  unfoldable pub perform_calls : List Call → WheelTimer → WheelTimer
  perform_calls [] t = t
  perform_calls (c ∷ cs) t = perform_calls cs (perform c t)

  -- `cb()`
  unfoldable pub run_callback : Option ℕ → WheelTimer → WheelTimer
  run_callback none t = t
  run_callback (some name) t =
      perform_calls (script name) (record t { called = t.called ++ name ∷ [] })

  abbrev pub countdown : Entry → Entry
  countdown e = record e { remaining_rounds = e.remaining_rounds - 1 }

  -- The loop of `advance_slot` on a handle of the slot that has this entry.
  abbrev pub visit_entry : Bool → ℕ → Handle → Entry → WheelTimer → WheelTimer
  visit_entry should_compact slot h e t =
      if is_stale e h.generation
      then t
      else if e.cancelled
      then (if should_compact then release_entry h.index t else push_handle slot h t)
      else if ltb 0 e.remaining_rounds
      then push_handle slot h (record t { entries = modify countdown h.index t.entries })
      else run_callback e.callback (release_entry h.index t)

  unfoldable pub visit : Bool → ℕ → Handle → WheelTimer → WheelTimer
  visit should_compact slot h t = elim (get_elem? t.entries h.index) [
    | none ↦ t
    | some e ↦ visit_entry should_compact slot h e t
  ]

  unfoldable pub visit_all : Bool → ℕ → List Handle → WheelTimer → WheelTimer
  visit_all should_compact slot [] t = t
  visit_all should_compact slot (h ∷ hs) t =
      visit_all should_compact slot hs (visit should_compact slot h t)

  abbrev pub next_slot : WheelTimer → ℕ
  next_slot t = (t.current_slot + 1) % wheel_size

  -- The next slot with its handles taken out.
  abbrev pub open_slot : ℕ → WheelTimer → WheelTimer
  open_slot counter t = record t {
    current_slot = next_slot t;
    called = [];
    slots = set t.slots (next_slot t) [];
    compact_tick_counter = counter;
  }

  -- `advance_slot`, with the handles of the next slot.
  abbrev pub advance_from : List Handle → WheelTimer → WheelTimer
  advance_from [] t = record t { current_slot = next_slot t; called = [] }
  advance_from (h ∷ hs) t =
      let counter : ℕ = (t.compact_tick_counter + 1) % 2 ^ 64 in
      visit_all (counter % compact_interval_ticks == 0) (next_slot t) (h ∷ hs) (open_slot counter t)

  unfoldable pub advance_slot : WheelTimer → WheelTimer
  advance_slot t = advance_from (get_or t.slots (next_slot t) []) t

  unfoldable pub advance_slots : ℕ → WheelTimer → WheelTimer
  advance_slots zero t = t
  advance_slots (suc n) t = advance_slot (advance_slots n t)

  -- `tick`; the times are in nanoseconds.
  unfoldable pub tick : ℕ → WheelTimer → WheelTimer
  tick now t =
      let elapsed = (now - t.last_tick) / 1000000 in
      let ticks = elapsed / slot_ms in
      let ticked : WheelTimer =
        advance_slots ticks (record t { last_tick = t.last_tick + ticks * slot_ms * 1000000 }) in
      if leb now t.last_tick then t else if ltb elapsed slot_ms then t else ticked
