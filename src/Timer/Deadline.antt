-- ===== src/Timer/Deadline.antt =====
-- What `add` promises: when the callback is called.
use visage_dvachevsky_tempre.Base.{
  ◌*◌, ℕ, zero, suc, ◌+◌, ◌-◌, ◌/◌, ◌%◌, ◌^◌, ◌≤◌, ◌<◌, ◌≡◌, refl, sym, ◌∙◌, ap, true, some, List,
  [], ◌∷◌, ◌++◌, length, get_elem?, get_or, ◌==◌, arith, All, Bool-cases, get_or-modify_self,
  get_or-modify_ne, inl, inr, get_elem?-modify_self,
}
use mathlib.Core.Path.{subst}
use visage_dvachevsky_tempre.Timer.{
  Handle, Entry, WheelTimer, Call, new_entry, arm, acquire_entry, add_ticks, advance_slots,
}
use visage_dvachevsky_tempre.Timer.Entries.{occurrences, placed}
use visage_dvachevsky_tempre.Timer.Valid.{IsValid}
use visage_dvachevsky_tempre.Timer.Acquire.{add_ticks-IsValid}
use native.Mathlib.Nat.{mod-lt}
use visage_dvachevsky_tempre.Timer.Acquire.{Acquired, acquire_entry-Acquired, length-add_ticks}
use visage_dvachevsky_tempre.Timer.Waits.{
  Waits, Spares, same_handle, copies, copies-append, copies-own,
}
use visage_dvachevsky_tempre.Timer.Advance.{advance_slots-Moves}
use native.Mathlib.Nat.{add-mod_right, div-add-mod'}
use visage_dvachevsky_tempre.Timer.Liveness.{
  DueIn, due-awaited, due_last, due_advances, no_longer, awaited, deadline,
}
use visage_dvachevsky_tempre.Timer.Waits.{copies-placed}
use native.Mathlib.Nat.{mod-lt, mod-le}

get_or-found : (es : List Entry) (i : ℕ) (e d : Entry) → get_elem? es i ≡ some e → get_or es i d ≡ e
get_or-found [] i e d q = absurd (ground (arith, q))
get_or-found (x ∷ es) zero e d q = ground (arith, q)
get_or-found (x ∷ es) (suc i) e d q = get_or-found es i e d q

same_handle_refl : (k : Handle) → same_handle k k ≡ true
same_handle_refl k = ground arith

module _ (wheel_size slot_ms : ℕ) (script : ℕ → List Call) (ticks callback : ℕ) (t : WheelTimer)
    (valid : IsValid wheel_size [] t) where
  abbrev added : Handle × WheelTimer
  added = add_ticks wheel_size ticks callback t

  abbrev target : ℕ
  target = (t.current_slot + ticks % wheel_size) % wheel_size

  positive : 0 < wheel_size
  positive = omega (arith, valid.here)

  none_placed :
      (i : ℕ) (u : WheelTimer) (g s : ℕ)
      → Acquired t i u
      → copies (record { index = i; generation = g }) (get_or u.slots s []) ≡ 0
  none_placed i u g s a = omega (
    arith,
    copies-placed (record { index = i; generation = g }) s u.slots,
    ap (placed i) a.kept.0,
    valid.handles i,
    a.unused,
  )

  added-Waits :
      length added.1.entries ≤ 2 ^ 32
      → Waits wheel_size slot_ms script added.0 callback
          (ticks / wheel_size)
          target
          t.current_slot
          1
          []
          added.1
  unfolding add_ticks
  added-Waits small =
      let u : WheelTimer = (acquire_entry t).1 in
      let i : ℕ = (acquire_entry t).0 in
      let a : Acquired t i u =
        acquire_entry-Acquired wheel_size [] t valid
          (subst (λ m. m ≤ 2 ^ 32) (length-add_ticks wheel_size ticks callback t) small) in
      let h : Handle = added.0 in
      let f : Entry → Entry = arm (ticks / wheel_size) target callback in
      let inside : target < length u.slots =
        subst (λ m. target < m) (sym (ap length a.kept.0 ∙ valid.sized))
          (mod-lt (t.current_slot + ticks % wheel_size) positive) in
      record {
        valid = (add_ticks-IsValid wheel_size ticks callback [] t).1 valid small;
        current = a.kept.1;
        entry = f a.entry;
        found = get_elem?-modify_self f i u.entries a.entry a.found;
        active = refl;
        uncancelled = a.uncancelled;
        same =
            ap (λ (e : Entry). e.generation)
              (sym (get_or-found u.entries i a.entry new_entry a.found));
        held = refl;
        to_go = refl;
        at_slot =
            ap (copies h) (get_or-modify_self (λ hs. hs ++ h ∷ []) target u.slots [] inside)
            ∙ copies-append h (get_or u.slots target []) h
            ∙ copies-own h h (get_or u.slots target []) (same_handle_refl h)
            ∙ ap suc (none_placed i u h.generation target a);
        elsewhere = λ s n.
            ap (copies h) (get_or-modify_ne (λ hs. hs ++ h ∷ []) target s u.slots [] n)
            ∙ none_placed i u h.generation s a;
      }

  module _
      (spares : (name : ℕ)
        → All (Spares wheel_size slot_ms script added.0 callback 0 0) (script name)) where
    added-DueIn :
        length added.1.entries ≤ 2 ^ 32
        → DueIn wheel_size slot_ms script added.0 callback spares
            (deadline wheel_size ticks)
            added.1
    added-DueIn small =
        let w = added-Waits small in
        let waits : Waits wheel_size slot_ms script added.0 callback (ticks / wheel_size) target
            added.1.current_slot 1 [] added.1 =
          subst
            (λ c.
              Waits wheel_size slot_ms script added.0 callback (ticks / wheel_size) target c 1 []
                added.1)
            (sym w.current) w in
        let whole : ticks / wheel_size * wheel_size + ticks % wheel_size ≡ ticks =
          div-add-mod' ticks wheel_size in
        elim (Bool-cases (ticks % wheel_size == 0)) [
          | inl e ↦
              let none_over : ticks % wheel_size ≡ 0 = ground (arith, e) in
              record {
                slot = target;
                offset = wheel_size;
                rounds = ticks / wheel_size;
                ahead = positive;
                within = omega arith;
                total = ground (arith, e, whole);
                place =
                    ap (λ c. (c + ticks % wheel_size) % wheel_size) (sym w.current)
                    ∙ ap (λ o. (added.1.current_slot + o) % wheel_size) none_over
                    ∙ ap (λ a. a % wheel_size) (omega arith)
                    ∙ sym (add-mod_right added.1.current_slot wheel_size);
                waits = waits;
              }
          | inr e ↦ record {
            slot = target;
            offset = ticks % wheel_size;
            rounds = ticks / wheel_size;
            ahead = ground (arith, e);
            within = omega (arith, mod-lt ticks positive);
            total = ground (arith, e, whole);
            place = ap (λ c. (c + ticks % wheel_size) % wheel_size) (sym w.current);
            waits = waits;
          }
        ]

    abbrev advances : ℕ → WheelTimer
    advances n = advance_slots wheel_size slot_ms script n added.1

    called_on_time :
        (d : ℕ)
        → DueIn wheel_size slot_ms script added.0 callback spares d added.1
        → 0 < d
        → length (advances d).entries ≤ 2 ^ 32
        → ((n : ℕ) → n < d → awaited added.0 (advances n) ≡ some callback)
          × (0 < occurrences callback (advances d).called)
    unfolding advance_slots
    called_on_time zero due p small = absurd (omega (arith, p))
    called_on_time (suc m) due p small =
        let fits : (n : ℕ) → n ≤ suc m → length (advances n).entries ≤ 2 ^ 32 = λ n h.
          let e : suc m - n + n ≡ suc m = omega (arith, h) in
          omega (
            arith,
            no_longer wheel_size slot_ms script added.0 callback spares n (suc m - n) added.1,
            ap (λ i. length (advances i).entries) e,
            small,
          ) in
        let now : (n i : ℕ)
            → suc i + n ≡ suc m
            → DueIn wheel_size slot_ms script added.0 callback spares (suc i) (advances n) =
          λ n i e.
            due_advances wheel_size slot_ms script added.0 callback spares n i added.1
              (subst (λ d. DueIn wheel_size slot_ms script added.0 callback spares d added.1)
                (sym e) due)
              (fits n (omega (arith, e))) in
        (
          (λ n h.
              due-awaited wheel_size slot_ms script added.0 callback spares (suc (m - n))
                (advances n) (now n (m - n) (omega (arith, h)))),
          due_last wheel_size slot_ms script added.0 callback spares (advances m)
              (now m 0 (omega arith)) small,
        )

-- The time of the call: a valid timer, a callback that is added with a number of ticks, and callbacks
-- that do not cancel it. Then it is awaited for all advances before the deadline, and called by the
-- one at the deadline, whatever the callbacks that run before add and cancel. The deadline is the
-- number of ticks, and a revolution more if the ticks fill whole revolutions. The timer holds at most
-- 2^32 entries until then.
pub add_ticks-called :
    (wheel_size slot_ms : ℕ) (script : ℕ → List Call) (ticks callback : ℕ) (t : WheelTimer)
    → IsValid wheel_size [] t
    → ((name : ℕ)
        → All
            (Spares wheel_size slot_ms script
              (add_ticks wheel_size ticks callback t).0
              callback
              0
              0)
            (script name))
    → length
        (advance_slots wheel_size slot_ms script
          (deadline wheel_size ticks)
          (add_ticks wheel_size ticks callback t).1).entries
      ≤ 2 ^ 32
    → ((n : ℕ)
        → n < deadline wheel_size ticks
        → awaited
            (add_ticks wheel_size ticks callback t).0
            (advance_slots wheel_size slot_ms script n (add_ticks wheel_size ticks callback t).1)
          ≡ some callback)
      × (0
          < occurrences callback
              (advance_slots wheel_size slot_ms script
                (deadline wheel_size ticks)
                (add_ticks wheel_size ticks callback t).1).called)
add_ticks-called wheel_size slot_ms script ticks callback t v spares small =
    let start : length (add_ticks wheel_size ticks callback t).1.entries ≤ 2 ^ 32 = omega (
      arith,
      small,
      (advance_slots-Moves wheel_size slot_ms script (deadline wheel_size ticks)
          (add_ticks wheel_size ticks callback t).1).0,
    ) in
    called_on_time wheel_size slot_ms script ticks callback t v spares (deadline wheel_size ticks)
      (added-DueIn wheel_size slot_ms script ticks callback t v spares start)
      (ground (arith, v.here, mod-le ticks wheel_size)) small
