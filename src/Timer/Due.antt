-- ===== src/Timer/Due.antt =====
-- `advance_slot` on a timer that waits: in another slot, in its own, and when it is due.
use visage_dvachevsky_tempre.Base.{
  eq_or_ne, ℕ, zero, suc, ◌+◌, ◌%◌, ◌^◌, ◌≤◌, ◌≡◌, ◌≢◌, refl, sym, ◌∙◌, ap, Bool, false, List, [],
  ◌∷◌, length, get_or, set, ◌==◌, arith, All, Bool-cases, get_or-set_ne, inl, inr,
}
use mathlib.Core.Path.{subst}
use visage_dvachevsky_tempre.Timer.{
  compact_interval_ticks, open_slot, advance_from, Handle, WheelTimer, Call, visit, visit_all,
  advance_slot, next_slot,
}
use visage_dvachevsky_tempre.Timer.Valid.{Moves, Moves-then}
use visage_dvachevsky_tempre.Timer.Steps.{visit_all-Moves}
use visage_dvachevsky_tempre.Timer.Advance.{opened-IsValid}
use visage_dvachevsky_tempre.Timer.Waits.{Waits, Spares, Waits-steps, same_handle, copies}
use visage_dvachevsky_tempre.Timer.Steps.{visit-Moves}
use visage_dvachevsky_tempre.Timer.Advance.{All-units, moved-IsValid, advance_slot-Moves}
use visage_dvachevsky_tempre.Timer.Waits.{still}
use visage_dvachevsky_tempre.Timer.Fires.{Logged, Logged-steps, visit_own, visit_last}

emptied : (slots : List (List Handle)) (s : ℕ) → get_or (set slots s []) s [] ≡ []
emptied [] s = refl
emptied (hs ∷ slots) zero = refl
emptied (hs ∷ slots) (suc s) = emptied slots s

no_copies : (k : Handle) → copies k [] ≡ 0
unfolding copies
no_copies k = refl

module _ (wheel_size slot_ms : ℕ) (script : ℕ → List Call) (k : Handle) (callback slot : ℕ)
    (spares : (name : ℕ)
      → All (Spares wheel_size slot_ms script k callback 0 slot) (script name)) where
  abbrev Wait : ℕ → ℕ → ℕ → List Handle → WheelTimer → Type 0
  Wait rounds c n rest t = Waits wheel_size slot_ms script k callback rounds slot c n rest t

  All-others : (hs : List Handle) → copies k hs ≡ 0 → All (λ h. same_handle k h ≡ false) hs
  unfolding copies
  All-others [] q = tt
  All-others (h ∷ hs) q = (ground (arith, q), All-others hs (ground (arith, q)))

  visits_others :
      (compact : Bool) (rounds c n s : ℕ) (hs : List Handle) (t : WheelTimer)
      → copies k hs ≡ 0
      → Moves
          (Wait rounds c n hs)
          (Wait rounds c n [])
          t
          (visit_all wheel_size slot_ms script compact s hs t)
  visits_others compact rounds c n s hs t q =
      visit_all-Moves wheel_size slot_ms script (Wait rounds c n) _ _
        (Waits-steps wheel_size slot_ms script k callback rounds slot c n) spares compact s hs t
        (All-others hs q)

  -- The loop on the timer's slot takes a round off it.
  visits_own :
      (compact : Bool) (rounds : ℕ) (hs : List Handle) (t : WheelTimer)
      → copies k hs ≡ 1
      → Moves
          (Wait (suc rounds) slot 0 hs)
          (Wait rounds slot 1 [])
          t
          (visit_all wheel_size slot_ms script compact slot hs t)
  unfolding visit_all copies
  visits_own compact rounds [] t q = absurd (omega (arith, q))
  visits_own compact rounds (h ∷ hs) t q =
      let u : WheelTimer = visit wheel_size slot_ms script compact slot h t in
      elim (Bool-cases (same_handle k h)) [
        | inl own ↦
            Moves-then (Wait (suc rounds) slot 0 (h ∷ hs)) (Wait rounds slot 1 hs)
              (Wait rounds slot 1 []) t u _
              (visit_own wheel_size slot_ms script k callback slot compact rounds h hs t own)
              (visits_others compact rounds slot 1 slot hs u (ground (arith, own, q)))
        | inr other ↦
            Moves-then (Wait (suc rounds) slot 0 (h ∷ hs)) (Wait (suc rounds) slot 0 hs)
              (Wait rounds slot 1 []) t u _
              (visit-Moves wheel_size slot_ms script (Wait (suc rounds) slot 0) _ _
                (Waits-steps wheel_size slot_ms script k callback (suc rounds) slot slot 0) spares
                compact slot h hs t other)
              (visits_own compact rounds hs u (ground (arith, other, q)))
      ]

  -- The loop on its slot calls it.
  visits_last :
      (compact : Bool) (hs : List Handle) (t : WheelTimer)
      → copies k hs ≡ 1
      → Moves
          (Wait 0 slot 0 hs)
          (Logged callback [])
          t
          (visit_all wheel_size slot_ms script compact slot hs t)
  unfolding visit_all copies
  visits_last compact [] t q = absurd (omega (arith, q))
  visits_last compact (h ∷ hs) t q =
      let u : WheelTimer = visit wheel_size slot_ms script compact slot h t in
      elim (Bool-cases (same_handle k h)) [
        | inl own ↦
            Moves-then (Wait 0 slot 0 (h ∷ hs)) (Logged callback hs) (Logged callback []) t u
              (visit_all wheel_size slot_ms script compact slot hs u)
              (visit_last wheel_size slot_ms script k callback slot compact h hs t own)
              (visit_all-Moves wheel_size slot_ms script (Logged callback) (λ x. Unit) (λ c. Unit)
                (Logged-steps wheel_size slot_ms script callback) (λ name. All-units (script name))
                compact slot hs u (All-units hs))
        | inr other ↦
            Moves-then (Wait 0 slot 0 (h ∷ hs)) (Wait 0 slot 0 hs) (Logged callback []) t u
              (visit_all wheel_size slot_ms script compact slot hs u)
              (visit-Moves wheel_size slot_ms script (Wait 0 slot 0) _ _
                (Waits-steps wheel_size slot_ms script k callback 0 slot slot 0) spares compact slot
                h hs t other)
              (visits_last compact hs u (ground (arith, other, q)))
      ]

  abbrev next : WheelTimer → ℕ
  next t = next_slot wheel_size slot_ms script t

  abbrev taken : WheelTimer → List Handle
  taken t = get_or t.slots (next t) []

  opened_elsewhere :
      (rounds c counter : ℕ) (t : WheelTimer)
      → slot ≢ next t
      → Wait rounds c 1 [] t
      → Wait rounds (next t) 1 (taken t) (open_slot wheel_size slot_ms script counter t)
  opened_elsewhere rounds c counter t away w =
      still wheel_size slot_ms script k callback rounds slot c (next t) 1 [] (taken t) t
        (open_slot wheel_size slot_ms script counter t) w
        (opened-IsValid wheel_size slot_ms script t counter w.valid) refl refl
        (λ s. elim (eq_or_ne (next t) s) [
          | inl e ↦
              subst
                (λ i.
                  copies k (get_or (set t.slots (next t) []) i []) ≡ copies k (get_or t.slots i []))
                e
                (ap (copies k) (emptied t.slots (next t))
                  ∙ no_copies k
                  ∙ sym (w.elsewhere (next t) away))
          | inr n ↦ ap (copies k) (get_or-set_ne t.slots (next t) s [] [] n)
        ])

  opened_own :
      (rounds c counter : ℕ) (t : WheelTimer)
      → slot ≡ next t
      → Wait rounds c 1 [] t
      → Wait rounds slot 0 (taken t) (open_slot wheel_size slot_ms script counter t)
  opened_own rounds c counter t own w = record {
    valid = opened-IsValid wheel_size slot_ms script t counter w.valid;
    current = sym own;
    entry = w.entry;
    found = w.found;
    active = w.active;
    uncancelled = w.uncancelled;
    same = w.same;
    held = w.held;
    to_go = w.to_go;
    at_slot =
        subst (λ i. copies k (get_or (set t.slots i []) slot []) ≡ 0) own
          (ap (copies k) (emptied t.slots slot) ∙ no_copies k);
    elsewhere = λ s n.
        subst (λ i. copies k (get_or (set t.slots i []) s []) ≡ 0) own
          (ap (copies k) (get_or-set_ne t.slots slot s [] [] n) ∙ w.elsewhere s n);
  }

  abbrev advanced : WheelTimer → WheelTimer
  advanced t = advance_slot wheel_size slot_ms script t

  advance_long : (t : WheelTimer) → length t.entries ≤ length (advanced t).entries
  advance_long t = (advance_slot-Moves wheel_size slot_ms script t).0

  pub advance_elsewhere :
      (rounds c : ℕ) (t : WheelTimer)
      → slot ≢ next t
      → Moves (Wait rounds c 1 []) (Wait rounds (next t) 1 []) t (advanced t)
  unfolding advance_slot
  advance_elsewhere rounds c t away = (advance_long t, λ w small. from w (taken t) refl small)
    where
      from :
          Wait rounds c 1 [] t
          → (hs : List Handle) → taken t ≡ hs
          → length (advance_from wheel_size slot_ms script hs t).entries ≤ 2 ^ 32
          → Wait rounds (next t) 1 [] (advance_from wheel_size slot_ms script hs t)
      from w [] q small =
          still wheel_size slot_ms script k callback rounds slot c (next t) 1 [] [] t _ w
            (moved-IsValid wheel_size slot_ms script t w.valid) refl refl (λ s. refl)
      from w (h ∷ hs) q small =
          let counter : ℕ = (t.compact_tick_counter + 1) % 2 ^ 64 in
          (visits_others (counter % compact_interval_ticks == 0) rounds (next t) 1 (next t) (h ∷ hs)
              (open_slot wheel_size slot_ms script counter t)
              (ap (copies k) (sym q) ∙ w.elsewhere (next t) away)).1
            (subst (λ r. Wait rounds (next t) 1 r (open_slot wheel_size slot_ms script counter t)) q
              (opened_elsewhere rounds c counter t away w))
            small

  own_copies :
      (rounds c : ℕ) (t : WheelTimer)
      → slot ≡ next t
      → Wait rounds c 1 [] t
      → copies k (taken t) ≡ 1
  own_copies rounds c t own w = ap (λ s. copies k (get_or t.slots s [])) (sym own) ∙ w.at_slot

  -- What the loop makes of the timer's slot, the advance makes of it.
  advance_own :
      (Q : WheelTimer → Type 0) (rounds c : ℕ) (t : WheelTimer)
      → slot ≡ next t
      → ((compact : Bool) (hs : List Handle) (u : WheelTimer)
          → copies k hs ≡ 1
          → Moves
              (Wait rounds slot 0 hs)
              Q
              u
              (visit_all wheel_size slot_ms script compact slot hs u))
      → Moves (Wait rounds c 1 []) Q t (advanced t)
  unfolding advance_slot
  advance_own Q rounds c t own loop = (advance_long t, λ w small. from w (taken t) refl small)
    where
      from :
          Wait rounds c 1 [] t
          → (hs : List Handle) → taken t ≡ hs
          → length (advance_from wheel_size slot_ms script hs t).entries ≤ 2 ^ 32
          → Q (advance_from wheel_size slot_ms script hs t)
      from w [] q small =
          absurd (omega (arith, sym (own_copies rounds c t own w), ap (copies k) q, no_copies k))
      from w (h ∷ hs) q small =
          let counter : ℕ = (t.compact_tick_counter + 1) % 2 ^ 64 in
          let compact : Bool = counter % compact_interval_ticks == 0 in
          let opened : WheelTimer = open_slot wheel_size slot_ms script counter t in
          let started : Wait rounds slot 0 (h ∷ hs) opened =
            subst (λ r. Wait rounds slot 0 r opened) q (opened_own rounds c counter t own w) in
          subst
            (λ s.
              length (visit_all wheel_size slot_ms script compact s (h ∷ hs) opened).entries
                ≤ 2 ^ 32
              → Q (visit_all wheel_size slot_ms script compact s (h ∷ hs) opened))
            own
            (λ few.
              (loop compact (h ∷ hs) opened (ap (copies k) (sym q) ∙ own_copies rounds c t own w)).1
                started few)
            small

  pub advance_round :
      (rounds c : ℕ) (t : WheelTimer)
      → slot ≡ next t
      → Moves (Wait (suc rounds) c 1 []) (Wait rounds slot 1 []) t (advanced t)
  advance_round rounds c t own =
      advance_own (Wait rounds slot 1 []) (suc rounds) c t own
        (λ compact hs u q. visits_own compact rounds hs u q)

  pub advance_last :
      (c : ℕ) (t : WheelTimer)
      → slot ≡ next t
      → Moves (Wait 0 c 1 []) (Logged callback []) t (advanced t)
  advance_last c t own = advance_own (Logged callback []) 0 c t own visits_last
