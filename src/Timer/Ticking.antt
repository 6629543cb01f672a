-- ===== src/Timer/Ticking.antt =====
-- `tick`, and the ids that `add` and `cancel` exchange.
use visage_dvachevsky_tempre.Base.{
  ◌*◌, ℕ, zero, suc, ◌+◌, ◌-◌, ◌/◌, ◌%◌, ◌^◌, ◌≤◌, ◌<◌, ◌≡◌, ◌≢◌, refl, sym, ◌∙◌, ap, Bool, true,
  false, Option, none, some, List, [], ◌∷◌, length, get_elem?, get_or, modify, ◌==◌, if◌then◌else◌,
  ltb, arith, if-elim, if-true, if-false, get_elem?-modify_self, get_elem?-modify_ne,
}
use visage_dvachevsky_tempre.Timer.{
  compact_interval_ticks, open_slot, advance_from, Handle, Entry, WheelTimer, Call, mark_cancelled,
  acquire_from, acquire_entry, release_entry, add_ticks, cancel, decode_id, is_stale, perform,
  advance_slot, advance_slots, next_slot, ticks_of,
}
use visage_dvachevsky_tempre.Timer.Valid.{Moves, Moves-then}
use visage_dvachevsky_tempre.Timer.Valid.{IsValid}
use visage_dvachevsky_tempre.Timer.Acquire.{add_ticks-IsValid}
use visage_dvachevsky_tempre.Timer.Steps.{Steps, visit_all-Moves}
use native.Mathlib.Nat.{mod-lt, mod-eq_of_lt, mod-add-mod}
use mathlib.Core.Path.{subst}
use visage_dvachevsky_tempre.Base.{leb}
use visage_dvachevsky_tempre.Timer.Liveness.{awaited_at, awaited}
use visage_dvachevsky_tempre.Timer.Visit.{cancelled-Moves}
use visage_dvachevsky_tempre.Timer.Advance.{All-units, advance_slots-Moves}
use native.Mathlib.Nat.{div-add-mod'}
use visage_dvachevsky_tempre.Timer.{make_id}
use visage_dvachevsky_tempre.Timer.Liveness.{awaited}
use native.Mathlib.Nat.{mod-lt}
use visage_dvachevsky_tempre.Timer.{tick, make_id}
use native.Mathlib.Nat.{mod-lt}
use visage_dvachevsky_tempre.Base.{leb}
use visage_dvachevsky_tempre.Timer.Liveness.{awaited_at, awaited}

-- The time of the last tick and the current slot, which no callback moves.
abbrev At : ℕ → ℕ → WheelTimer → Type 0
At last slot t = (t.last_tick ≡ last) × (t.current_slot ≡ slot)

At-acquire_entry :
    (last slot : ℕ) (t : WheelTimer) → At last slot t → At last slot (acquire_entry t).1
unfolding acquire_entry
At-acquire_entry last slot t h = from t.free_list
  where
    from : (is : List ℕ) → At last slot (acquire_from is t).1
    from [] = h
    from (i ∷ is) = h

At-add_ticks :
    (wheel_size ticks callback last slot : ℕ) (t : WheelTimer)
    → At last slot t
    → At last slot (add_ticks wheel_size ticks callback t).1
unfolding add_ticks
At-add_ticks wheel_size ticks callback last slot t h = At-acquire_entry last slot t h

At-release_entry :
    (i last slot : ℕ) (t : WheelTimer) → At last slot t → At last slot (release_entry i t)
unfolding release_entry
At-release_entry i last slot t h = h

stays : (a m : ℕ) → a < m → (a + 0) % m ≡ a
stays a m h = ap (λ b. b % m) (omega arith) ∙ mod-eq_of_lt h

module _ (wheel_size slot_ms : ℕ) (script : ℕ → List Call) (last : ℕ) where
  abbrev Placed : ℕ → List Handle → WheelTimer → Type 0
  Placed slot rest t = At last slot t

  Placed-performs :
      (slot : ℕ) (c : Call) (rest : List Handle) (t : WheelTimer)
      → Moves (Placed slot rest) (Placed slot rest) t (perform wheel_size slot_ms script c t)
  Placed-performs slot (Call.schedule timeout name) rest t =
      let ticks : ℕ = ticks_of slot_ms timeout in
      (
        (add_ticks-IsValid wheel_size ticks name rest t).0,
        λ l small. At-add_ticks wheel_size ticks name last slot t l,
      )
  Placed-performs slot (Call.unschedule id) rest t =
      cancelled-Moves (Placed slot rest) id t (λ e found a g l. l)

  Placed-steps : (slot : ℕ) → Steps wheel_size slot_ms script (Placed slot) (λ h. Unit) (λ c. Unit)
  Placed-steps slot = record {
    performs = λ c rest t a. Placed-performs slot c rest t;
    logs = λ name rest t l. l;
    drops = λ h rest t o l. l;
    pushes = λ to h rest t o l. l;
    counts = λ h rest t e o found a g l. l;
    releases = λ h rest t e o found a g l. At-release_entry h.index last slot t l;
  }

  abbrev following : ℕ → ℕ
  following slot = (slot + 1) % wheel_size

  advance_from-Placed :
      (slot : ℕ) (t : WheelTimer) (hs : List Handle)
      → Moves
          (Placed slot [])
          (Placed (following slot) [])
          t
          (advance_from wheel_size slot_ms script hs t)
  advance_from-Placed slot t [] =
      (omega arith, λ l small. (l.0, ap (λ s. (s + 1) % wheel_size) l.1))
  advance_from-Placed slot t (h ∷ hs) =
      let counter : ℕ = (t.compact_tick_counter + 1) % 2 ^ 64 in
      let (long, moved) =
        visit_all-Moves wheel_size slot_ms script (Placed (following slot)) (λ x. Unit) (λ c. Unit)
          (Placed-steps (following slot)) (λ name. All-units (script name))
          (counter % compact_interval_ticks == 0) (next_slot wheel_size slot_ms script t) (h ∷ hs)
          (open_slot wheel_size slot_ms script counter t) (All-units (h ∷ hs)) in
      (long, λ l small. moved (l.0, ap (λ s. (s + 1) % wheel_size) l.1) small)

  -- After `n` slots the current one is `n` further round the wheel.
  advance_slots-Placed :
      (n slot : ℕ) (t : WheelTimer)
      → slot < wheel_size
      → Moves
          (Placed slot [])
          (Placed ((slot + n) % wheel_size) [])
          t
          (advance_slots wheel_size slot_ms script n t)
  unfolding advance_slots advance_slot
  advance_slots-Placed zero slot t here =
      (omega arith, λ l small. (l.0, l.1 ∙ sym (stays slot wheel_size here)))
  advance_slots-Placed (suc n) slot t here =
      let u : WheelTimer = advance_slots wheel_size slot_ms script n t in
      subst
        (λ s.
          Moves (Placed slot []) (Placed s []) t
            (advance_slots wheel_size slot_ms script (suc n) t))
        (further slot n)
        (Moves-then (Placed slot []) (Placed ((slot + n) % wheel_size) [])
          (Placed (following ((slot + n) % wheel_size)) []) t u
          (advance_slots wheel_size slot_ms script (suc n) t) (advance_slots-Placed n slot t here)
          (advance_from-Placed ((slot + n) % wheel_size) u
            (get_or u.slots (next_slot wheel_size slot_ms script u) [])))
    where
      further :
          (slot n : ℕ) → ((slot + n) % wheel_size + 1) % wheel_size ≡ (slot + suc n) % wheel_size
      further slot n =
          mod-add-mod (slot + n) wheel_size 1 ∙ ap (λ (a : ℕ). a % wheel_size) (omega arith)

-- The slots that fit between two times, and what is left over.
whole_slots :
    (slot_ms last now : ℕ)
    → last ≤ now
    → 0 < slot_ms
    → let next = last + (now - last) / 1000000 / slot_ms * slot_ms * 1000000 in
      (next ≤ now) × (now < next + slot_ms * 1000000)
whole_slots slot_ms last now h p =
    let elapsed : ℕ = (now - last) / 1000000 in
    let q : ℕ = elapsed / slot_ms * slot_ms in
    let a : elapsed * 1000000 + (now - last) % 1000000 ≡ now - last =
      div-add-mod' (now - last) 1000000 in
    let b : q + elapsed % slot_ms ≡ elapsed = div-add-mod' elapsed slot_ms in
    let c : elapsed % slot_ms < slot_ms = mod-lt elapsed p in
    let d : (now - last) % 1000000 < 1000000 = mod-lt (now - last) (omega arith) in
    (omega (arith, a, b, h), omega (arith, a, b, c, d, h))

not_over : (n : ℕ) → n < (n / 1000000 + 1) * 1000000
not_over n = omega (arith, div-add-mod' n 1000000, mod-lt n {m = 1000000} (omega arith))

restarted-IsValid :
    (wheel_size : ℕ) (t : WheelTimer) (last : ℕ)
    → IsValid wheel_size [] t
    → IsValid wheel_size [] (record t { last_tick = last })
restarted-IsValid wheel_size t last v = record {
  sized = v.sized;
  here = v.here;
  free = v.free;
  counted = v.counted;
  clean = v.clean;
  handles = v.handles;
}

-- What `tick` gives at the time `now`: `n` slots further, with the time of the last tick.
abbrev pub Ticked : ℕ → ℕ → (ℕ → List Call) → ℕ → WheelTimer → WheelTimer → Type 0
Ticked wheel_size slot_ms script now t u =
    IsValid wheel_size [] u
    × (u.last_tick ≤ now)
    × (now < u.last_tick + slot_ms * 1000000)
    × ((n : ℕ) × (u.last_tick ≡ t.last_tick + n * slot_ms * 1000000)
        × (u.current_slot ≡ (t.current_slot + n) % wheel_size)
        × (u ≡ advance_slots wheel_size slot_ms script n (record t { last_tick = u.last_tick })))

unmoved :
    (wheel_size slot_ms : ℕ) (script : ℕ → List Call) (now : ℕ) (t : WheelTimer)
    → IsValid wheel_size [] t
    → t.last_tick ≤ now
    → now < t.last_tick + slot_ms * 1000000
    → Ticked wheel_size slot_ms script now t t
unfolding advance_slots
unmoved wheel_size slot_ms script now t v a b =
    (v, a, b, (zero, omega arith, sym (stays t.current_slot wheel_size v.here), refl))

-- `tick` keeps a valid timer valid and advances it by a number of slots, one after the other, callbacks
-- included, whatever they add and cancel; the time of the last tick and the current slot go on by that
-- number, and it is as many as fit: the time of the last tick then is less than a slot behind. This is
-- for slots of a millisecond at least, a time that is not before the last tick, and at most 2^32
-- entries afterwards.
pub tick_lem :
    (wheel_size slot_ms : ℕ) (script : ℕ → List Call) (now : ℕ) (t : WheelTimer)
    → IsValid wheel_size [] t
    → 0 < slot_ms
    → t.last_tick ≤ now
    → length (tick wheel_size slot_ms script now t).entries ≤ 2 ^ 32
    → Ticked wheel_size slot_ms script now t (tick wheel_size slot_ms script now t)
unfolding tick
tick_lem wheel_size slot_ms script now t v p h small =
    let elapsed : ℕ = (now - t.last_tick) / 1000000 in
    let n : ℕ = elapsed / slot_ms in
    let started : WheelTimer = record t { last_tick = t.last_tick + n * slot_ms * 1000000 } in
    let ticked : WheelTimer = advance_slots wheel_size slot_ms script n started in
    let reached = whole_slots slot_ms t.last_tick now h p in
    let over : now - t.last_tick < (elapsed + 1) * 1000000 = not_over (now - t.last_tick) in
    if-elim (λ u. length u.entries ≤ 2 ^ 32 → Ticked wheel_size slot_ms script now t u)
      (leb now t.last_tick) _ _
      (λ q few. unmoved wheel_size slot_ms script now t v h (ground (arith, q, p)))
      (λ q.
        if-elim (λ u. length u.entries ≤ 2 ^ 32 → Ticked wheel_size slot_ms script now t u)
          (ltb elapsed slot_ms) _ _
          (λ r few. unmoved wheel_size slot_ms script now t v h (ground (arith, r, over, h)))
          (λ r few.
            let placed : At started.last_tick ((t.current_slot + n) % wheel_size) ticked =
              (advance_slots-Placed wheel_size slot_ms script started.last_tick n t.current_slot
                  started v.here).1
                (refl, refl) few in
            let valid : IsValid wheel_size [] ticked =
              (advance_slots-Moves wheel_size slot_ms script n started).1
                (restarted-IsValid wheel_size t (t.last_tick + n * slot_ms * 1000000) v) few in
            (
              valid,
              omega (arith, placed.0, reached),
              omega (arith, placed.0, reached),
              (
                n,
                placed.0,
                placed.1,
                ap (λ l. advance_slots wheel_size slot_ms script n (record t { last_tick = l }))
                    (sym placed.0),
              ),
            )))
      small

make_id_parts :
    (g i : ℕ) → i < 2 ^ 32 → ((g * 2 ^ 32 + i) % 2 ^ 32 ≡ i) × ((g * 2 ^ 32 + i) / 2 ^ 32 ≡ g)
make_id_parts g i h = (omega (arith, h), omega (arith, h))

-- An id is that of one handle, for indices of 32 bits.
pub decode_id-make_id : (h : Handle) → h.index < 2 ^ 32 → decode_id (make_id h) ≡ h
unfolding decode_id make_id
decode_id-make_id h small =
    let parts = make_id_parts h.generation h.index small in
    ap (λ (i : ℕ). record { index = i; generation = (h.generation * 2 ^ 32 + h.index) / 2 ^ 32 })
      parts.0
    ∙ ap (λ (g : ℕ). record { index = h.index; generation = g }) parts.1

-- The entry of the handle is in use, under its generation.
abbrev pub IsHeld : Handle → WheelTimer → Type 0
IsHeld k t =
    (e : Entry) × (get_elem? t.entries k.index ≡ some e)
    × (e.active ≡ true)
    × (e.generation ≡ k.generation)

live_entry : (e : Entry) (g : ℕ) → is_stale e g ≡ false → (e.active ≡ true) × (e.generation ≡ g)
live_entry e g h = ground (arith, h)

stale_or_held : (e : Entry) (g : ℕ) → is_stale e g ≡ true → e.active ≡ true → e.generation ≡ g → ⊥
stale_or_held e g h a same = ground (arith, h, a, same)

abbrev CancelOk : Handle → WheelTimer → Bool × WheelTimer → Type 0
CancelOk k t r =
    (r.0 ≡ true
      → IsHeld k t
        × (awaited k r.1 ≡ none)
        × ((other : Handle) → other.index ≢ k.index → awaited other r.1 ≡ awaited other t))
    × (r.0 ≡ false → (¬ (IsHeld k t)) × (r.1 ≡ t) × (awaited k t ≡ none))

-- `cancel` returns true exactly when the entry of the id is in use under the generation of the id,
-- which it still is when the timer has been cancelled before and not yet been released. Then the timer
-- is not awaited afterwards, and the timers in other entries are as they were. Otherwise nothing
-- changes, and no timer was awaited under the id.
pub cancel_lem :
    (id : ℕ) (t : WheelTimer)
    → ((cancel id t).0 ≡ true
        → IsHeld (decode_id id) t
          × (awaited (decode_id id) (cancel id t).1 ≡ none)
          × ((k : Handle)
              → k.index ≢ (decode_id id).index
              → awaited k (cancel id t).1 ≡ awaited k t))
      × ((cancel id t).0 ≡ false
          → (¬ (IsHeld (decode_id id) t))
            × ((cancel id t).1 ≡ t)
            × (awaited (decode_id id) t ≡ none))
unfolding cancel awaited
cancel_lem id t = from (get_elem? t.entries k.index) refl
  where
    k : Handle
    k = decode_id id

    marked : WheelTimer
    marked = record t { entries = modify mark_cancelled k.index t.entries }

    stale_not_held :
        (e e' : Entry)
        → is_stale e k.generation ≡ true
        → get_elem? t.entries k.index ≡ some e
        → get_elem? t.entries k.index ≡ some e'
        → e'.active ≡ true
        → e'.generation ≡ k.generation
        → ⊥
    stale_not_held e e' stale q g a same =
        stale_or_held e k.generation stale (ground (arith, q, g, a)) (ground (arith, q, g, same))

    from :
        (o : Option Entry)
        → get_elem? t.entries k.index ≡ o
        → CancelOk k t (elim o as (λ _. Bool × WheelTimer) [
          | none ↦ (false, t)
          | some e ↦ if is_stale e k.generation then (false, t) else (true, marked)
        ])
    from none q = (
      λ f. absurd (ground (arith, f)),
      λ f. (λ (e, g, a, same). cc, refl, ap (awaited_at k.generation) q),
    )
    from (some e) q =
        if-elim (CancelOk k t) (is_stale e k.generation) (false, t) (true, marked)
          (λ stale. (
            λ f. absurd (ground (arith, f)),
            λ f. (
              λ (e', g, a, same). stale_not_held e e' stale q g a same,
              refl,
              ap (awaited_at k.generation) q ∙ if-true _ _ stale,
            ),
          ))
          (λ live. (
            λ f. (
              (e, q, (live_entry e k.generation live).0, (live_entry e k.generation live).1),
              ap (awaited_at k.generation)
                    (get_elem?-modify_self mark_cancelled k.index t.entries e q)
                  ∙ if-false _ _ live,
              λ other n. ap (awaited_at other.generation) (
                  get_elem?-modify_ne mark_cancelled k.index other.index t.entries
                    (λ r. n (sym r))),
            ),
            λ f. absurd (ground (arith, f)),
          ))
