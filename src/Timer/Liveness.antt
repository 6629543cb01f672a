-- ===== src/Timer/Liveness.antt =====
-- When a timer that is not cancelled is called.
use visage_dvachevsky_tempre.Base.{
  ◌⊎◌, ◌*◌, ℕ, zero, suc, ◌+◌, ◌-◌, ◌%◌, ◌^◌, ◌≤◌, ◌<◌, ◌≡◌, ◌≢◌, refl, sym, ◌∙◌, ap, false, Option,
  none, some, List, [], length, get_elem?, ◌==◌, if◌then◌else◌, ltb, arith, All, Bool-cases,
  if-false, inl, inr,
}
use mathlib.Core.Path.{subst}
use native.Mathlib.Nat.{mod-eq_of_lt}
use visage_dvachevsky_tempre.Timer.{
  Handle, Entry, WheelTimer, Call, is_stale, advance_slot, advance_slots,
}
use visage_dvachevsky_tempre.Timer.Entries.{occurrences}
use visage_dvachevsky_tempre.Timer.Waits.{Waits, Spares}
use visage_dvachevsky_tempre.Timer.Advance.{advance_slot-Moves}
use visage_dvachevsky_tempre.Timer.Due.{advance_elsewhere, advance_round, advance_last}
use native.Mathlib.Nat.{mod-eq_of_lt, mod-eq-sub-mod, mod-add-mod, add-mod_right}

-- A number below twice the modulus.
wrap : (a m : ℕ) → a < m + m → ((a % m ≡ a) × (a < m)) ⊎ ((a % m ≡ a - m) × (m ≤ a))
wrap a m h = elim (Bool-cases (ltb a m)) [
  | inl e ↦ let small : a < m = ground (arith, e) in inl (mod-eq_of_lt small, small)
  | inr e ↦
      let big : m ≤ a = ground (arith, e) in
      inr (mod-eq-sub-mod big ∙ mod-eq_of_lt (omega (arith, h, big)), big)
]

-- One slot on, a slot that is further away stays ahead.
slot_ahead :
    (c off m : ℕ)
    → c < m
    → 2 ≤ off
    → off ≤ m
    → ((c + off) % m ≢ (c + 1) % m) × ((c + off) % m ≡ ((c + 1) % m + (off - 1)) % m)
slot_ahead c off m h two far =
    let next = wrap (c + 1) m (omega arith) in
    let here = wrap (c + off) m (omega arith) in
    let sum : c + 1 + (off - 1) ≡ c + off = omega arith in
    (
      (λ q. ground (arith, next, here, q)),
      ap (λ a. a % m) (sym sum) ∙ sym (mod-add-mod (c + 1) m (off - 1)),
    )

-- What waits behind a handle.
abbrev pub awaited_at : ℕ → Option Entry → Option ℕ
awaited_at generation none = none
awaited_at generation (some e) =
    if is_stale e generation then none else if e.cancelled then none else e.callback

unfoldable pub awaited : Handle → WheelTimer → Option ℕ
awaited k t = awaited_at k.generation (get_elem? t.entries k.index)

-- A timer whose ticks fill whole revolutions has another revolution to wait.
abbrev pub deadline : ℕ → ℕ → ℕ
deadline wheel_size ticks = ticks + (if ticks % wheel_size == 0 then wheel_size else 0)

module _ (wheel_size slot_ms : ℕ) (script : ℕ → List Call) (k : Handle) (callback : ℕ)
    (spares : (name : ℕ)
      → All (Spares wheel_size slot_ms script k callback 0 0) (script name)) where
  -- The timer is called by the `d`th advance from now on.
  pub record DueIn (d : ℕ) (t : WheelTimer) : Type 0 where
    pub slot : ℕ
    pub offset : ℕ
    pub rounds : ℕ
    pub ahead : 1 ≤ offset
    pub within : offset ≤ wheel_size
    pub total : d ≡ offset + rounds * wheel_size
    pub place : slot ≡ (t.current_slot + offset) % wheel_size
    pub waits : Waits wheel_size slot_ms script k callback rounds slot t.current_slot 1 [] t

  abbrev advanced : WheelTimer → WheelTimer
  advanced t = advance_slot wheel_size slot_ms script t

  pub due-awaited : (d : ℕ) (t : WheelTimer) → DueIn d t → awaited k t ≡ some callback
  unfolding awaited
  due-awaited d t due =
      let w = due.waits in
      let live : is_stale w.entry k.generation ≡ false = ground (arith, w.active, w.same) in
      ap (awaited_at k.generation) w.found ∙ if-false _ _ live ∙ if-false _ _ w.uncancelled ∙ w.held

  due_far :
      (d : ℕ) (t : WheelTimer) (due : DueIn (suc (suc d)) t)
      → 2 ≤ due.offset
      → length (advanced t).entries ≤ 2 ^ 32
      → DueIn (suc d) (advanced t)
  due_far d t due far small =
      let c : ℕ = t.current_slot in
      let next : ℕ = (c + 1) % wheel_size in
      let ahead = slot_ahead c due.offset wheel_size due.waits.valid.here far due.within in
      let w : Waits wheel_size slot_ms script k callback due.rounds due.slot next 1 []
          (advanced t) =
        (advance_elsewhere wheel_size slot_ms script k callback due.slot spares due.rounds c t
            (λ q. ahead.0 (sym due.place ∙ q))).1
          due.waits small in
      record {
        slot = due.slot;
        offset = due.offset - 1;
        rounds = due.rounds;
        ahead = omega (arith, far);
        within = omega (arith, due.within);
        total = omega (arith, due.total, far);
        place = due.place ∙ ahead.1 ∙ ap (λ i. (i + (due.offset - 1)) % wheel_size) (sym w.current);
        waits =
            subst
              (λ i.
                Waits wheel_size slot_ms script k callback due.rounds due.slot i 1 [] (advanced t))
              (sym w.current) w;
      }

  more_rounds :
      (d rounds : ℕ)
      → suc (suc d) ≡ 1 + rounds * wheel_size
      → (r : ℕ) × (rounds ≡ suc r) × (suc d ≡ wheel_size + r * wheel_size)
  more_rounds d zero q = absurd (omega (arith, q))
  more_rounds d (suc r) q = (r, refl, grind (arith, q))

  due_near :
      (d : ℕ) (t : WheelTimer) (due : DueIn (suc (suc d)) t)
      → due.offset ≡ 1
      → length (advanced t).entries ≤ 2 ^ 32
      → DueIn (suc d) (advanced t)
  due_near d t due near small =
      let c : ℕ = t.current_slot in
      let (r, q, left) =
        more_rounds d due.rounds (due.total ∙ ap (λ o. o + due.rounds * wheel_size) near) in
      let own : due.slot ≡ (c + 1) % wheel_size = due.place ∙ ap (λ o. (c + o) % wheel_size) near in
      let w : Waits wheel_size slot_ms script k callback r due.slot due.slot 1 [] (advanced t) =
        (advance_round wheel_size slot_ms script k callback due.slot spares r c t own).1
          (subst (λ m. Waits wheel_size slot_ms script k callback m due.slot c 1 [] t) q due.waits)
          small in
      let inside : due.slot < wheel_size = subst (λ i. i < wheel_size) w.current w.valid.here in
      record {
        slot = due.slot;
        offset = wheel_size;
        rounds = r;
        ahead = omega (arith, inside);
        within = omega arith;
        total = left;
        place =
            sym (mod-eq_of_lt inside)
            ∙ sym (add-mod_right due.slot wheel_size)
            ∙ ap (λ i. (i + wheel_size) % wheel_size) (sym w.current);
        waits =
            subst (λ i. Waits wheel_size slot_ms script k callback r due.slot i 1 [] (advanced t))
              (sym w.current) w;
      }

  due_next :
      (d : ℕ) (t : WheelTimer)
      → DueIn (suc (suc d)) t
      → length (advanced t).entries ≤ 2 ^ 32
      → DueIn (suc d) (advanced t)
  due_next d t due small = elim (Bool-cases (due.offset == 1)) [
    | inl e ↦ due_near d t due (ground (arith, e)) small
    | inr e ↦ due_far d t due (ground (arith, e, due.ahead)) small
  ]

  last_round :
      (offset rounds : ℕ)
      → 1 ≤ offset
      → offset ≤ wheel_size
      → 1 ≡ offset + rounds * wheel_size
      → (offset ≡ 1) × (rounds ≡ 0)
  last_round offset zero a b q = (omega (arith, q), refl)
  last_round offset (suc r) a b q = absurd (grind (arith, a, b, q))

  pub due_last :
      (t : WheelTimer)
      → DueIn 1 t
      → length (advanced t).entries ≤ 2 ^ 32
      → 0 < occurrences callback (advanced t).called
  due_last t due small =
      let c : ℕ = t.current_slot in
      let (near, none_left) = last_round due.offset due.rounds due.ahead due.within due.total in
      let own : due.slot ≡ (c + 1) % wheel_size = due.place ∙ ap (λ o. (c + o) % wheel_size) near in
      (advance_last wheel_size slot_ms script k callback due.slot spares c t own).1
        (subst (λ m. Waits wheel_size slot_ms script k callback m due.slot c 1 [] t) none_left
          due.waits)
        small

  abbrev advances : ℕ → WheelTimer → WheelTimer
  advances n t = advance_slots wheel_size slot_ms script n t

  advance_longer :
      (n : ℕ) (t : WheelTimer) → length (advances n t).entries ≤ length (advances (suc n) t).entries
  unfolding advance_slots
  advance_longer n t = (advance_slot-Moves wheel_size slot_ms script (advances n t)).0

  pub no_longer :
      (n m : ℕ) (t : WheelTimer)
      → length (advances n t).entries ≤ length (advances (m + n) t).entries
  no_longer n zero t = ap-le n t
    where
      ap-le :
          (n : ℕ) (t : WheelTimer)
          → length (advances n t).entries ≤ length (advances (0 + n) t).entries
      ap-le n t = let e : 0 + n ≡ n = omega arith in rw e (omega arith)
  no_longer n (suc m) t =
      let e : suc m + n ≡ suc (m + n) = omega arith in
      rw e (omega (arith, no_longer n m t, advance_longer (m + n) t))

  pub due_advances :
      (n d : ℕ) (t : WheelTimer)
      → DueIn (suc d + n) t
      → length (advances n t).entries ≤ 2 ^ 32
      → DueIn (suc d) (advances n t)
  unfolding advance_slots
  due_advances zero d t due small =
      let e : suc d + 0 ≡ suc d = omega arith in subst (λ m. DueIn m t) e due
  due_advances (suc n) d t due small =
      let e : suc d + suc n ≡ suc (suc d) + n = omega arith in
      due_next d (advances n t)
        (due_advances n (suc d) t (subst (λ m. DueIn m t) e due)
          (omega (arith, small, advance_longer n t)))
        small
