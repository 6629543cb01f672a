-- ===== src/Timer/Fires.antt =====
-- The visit of a timer's own handle: it counts a round down, or calls the callback.
use visage_dvachevsky_tempre.Base.{
  ℕ, suc, ◌^◌, ◌≤◌, ◌<◌, ◌≡◌, refl, sym, ◌∙◌, ap, Bool, true, false, none, some, List, [], ◌∷◌,
  ◌++◌, length, get_elem?, get_or, modify, ltb, arith, if-true, if-false, get_or-modify_self,
  get_or-modify_ne, get_elem?-modify_self,
}
use mathlib.Core.Path.{subst}
use visage_dvachevsky_tempre.Timer.{
  Handle, Entry, WheelTimer, Call, acquire_from, acquire_entry, release_entry, push_handle,
  add_ticks, is_stale, perform, run_callback, visit_entry, visit, countdown, ticks_of,
}
use visage_dvachevsky_tempre.Timer.Entries.{occurrences, occurrences_self}
use visage_dvachevsky_tempre.Timer.Valid.{Moves}
use visage_dvachevsky_tempre.Timer.Valid.{IsValid}
use visage_dvachevsky_tempre.Timer.Acquire.{add_ticks-IsValid}
use visage_dvachevsky_tempre.Timer.Steps.{Steps}
use visage_dvachevsky_tempre.Timer.Visit.{cancelled-Moves}
use visage_dvachevsky_tempre.Timer.Advance.{IsValid-steps}
use visage_dvachevsky_tempre.Timer.Waits.{Waits, same_handle, copies, copies-append, copies-own}
use visage_dvachevsky_tempre.Timer.Steps.{visit-Moves, perform_calls-Moves}
use visage_dvachevsky_tempre.Timer.Advance.{All-units}

occurrences-append : (j i : ℕ) (is : List ℕ) → occurrences j (is ++ i ∷ []) ≡ occurrences j (i ∷ is)
unfolding occurrences
occurrences-append j i [] = refl
occurrences-append j i (x ∷ is) = let e = occurrences-append j i is in omega (arith, e)

abbrev pub Logged : ℕ → List Handle → WheelTimer → Type 0
Logged callback rest t = 0 < occurrences callback t.called

called-acquire_entry : (t : WheelTimer) → (acquire_entry t).1.called ≡ t.called
unfolding acquire_entry
called-acquire_entry t = from t.free_list
  where
    from : (is : List ℕ) → (acquire_from is t).1.called ≡ t.called
    from [] = refl
    from (i ∷ is) = refl

called-add_ticks :
    (wheel_size ticks callback : ℕ) (t : WheelTimer)
    → (add_ticks wheel_size ticks callback t).1.called ≡ t.called
unfolding add_ticks
called-add_ticks wheel_size ticks callback t = called-acquire_entry t

called-release_entry : (i : ℕ) (t : WheelTimer) → (release_entry i t).called ≡ t.called
unfolding release_entry
called-release_entry i t = refl

same_index :
    (k h : Handle) → same_handle k h ≡ true → (h.index ≡ k.index) × (h.generation ≡ k.generation)
same_index k h q = (ground (arith, q), ground (arith, q))

module _ (wheel_size slot_ms : ℕ) (script : ℕ → List Call) (callback : ℕ) where
  Logged-performs :
      (c : Call) (rest : List Handle) (t : WheelTimer)
      → Moves
          (Logged callback rest)
          (Logged callback rest)
          t
          (perform wheel_size slot_ms script c t)
  Logged-performs (Call.schedule timeout name) rest t =
      let e = called-add_ticks wheel_size (ticks_of slot_ms timeout) name t in
      (
        (add_ticks-IsValid wheel_size (ticks_of slot_ms timeout) name rest t).0,
        λ l small. subst (λ cs. 0 < occurrences callback cs) (sym e) l,
      )
  Logged-performs (Call.unschedule id) rest t =
      cancelled-Moves (Logged callback rest) id t (λ e found a g l. l)

  Logged-more :
      (name : ℕ) (rest : List Handle) (t : WheelTimer)
      → Logged callback rest t
      → 0 < occurrences callback (t.called ++ name ∷ [])
  unfolding occurrences
  Logged-more name rest t l =
      let e = occurrences-append callback name t.called in omega (arith, e, l)

  -- What was called stays in the log.
  pub Logged-steps : Steps wheel_size slot_ms script (Logged callback) (λ h. Unit) (λ c. Unit)
  Logged-steps = record {
    performs = λ c rest t a. Logged-performs c rest t;
    logs = Logged-more;
    drops = λ h rest t o l. l;
    pushes = λ slot h rest t o l. l;
    counts = λ h rest t e o found a g l. l;
    releases = λ h rest t e o found a g l.
        subst (λ cs. 0 < occurrences callback cs) (sym (called-release_entry h.index t)) l;
  }

  run_callback-Logged :
      (rest : List Handle) (t : WheelTimer)
      → length (run_callback wheel_size slot_ms script (some callback) t).entries ≤ 2 ^ 32
      → Logged callback rest (run_callback wheel_size slot_ms script (some callback) t)
  unfolding run_callback
  run_callback-Logged rest t small =
      let logged : WheelTimer = record t { called = t.called ++ callback ∷ [] } in
      (perform_calls-Moves wheel_size slot_ms script (Logged callback) (λ h. Unit) (λ c. Unit)
          Logged-steps (λ name. All-units (script name)) (script callback) rest logged
          (All-units (script callback))).1
        (omega (
          arith,
          occurrences-append callback callback t.called,
          occurrences_self callback t.called,
        ))
        small

module _ (wheel_size slot_ms : ℕ) (script : ℕ → List Call) (compact : Bool) (slot : ℕ) (h : Handle)
    (t : WheelTimer) (e : Entry) (found : get_elem? t.entries h.index ≡ some e)
    (active : e.active ≡ true) (same : e.generation ≡ h.generation)
    (uncancelled : e.cancelled ≡ false) where
  fresh : is_stale e h.generation ≡ false
  fresh = ground (arith, active, same)

  visit_found :
      visit wheel_size slot_ms script compact slot h t
      ≡ visit_entry wheel_size slot_ms script compact slot h e t
  unfolding visit
  visit_found =
      ap
        (λ o. elim o as (λ _. WheelTimer) [
          | none ↦ t
          | some e' ↦ visit_entry wheel_size slot_ms script compact slot h e' t
        ])
        found

  visit_counts :
      0 < e.remaining_rounds
      → visit wheel_size slot_ms script compact slot h t
        ≡ push_handle slot h
            (record t { entries = modify (countdown wheel_size slot_ms script) h.index t.entries })
  visit_counts p =
      let more : ltb 0 e.remaining_rounds ≡ true = ground (arith, p) in
      visit_found ∙ if-false _ _ fresh ∙ if-false _ _ uncancelled ∙ if-true _ _ more

  visit_calls :
      e.remaining_rounds ≡ 0
      → visit wheel_size slot_ms script compact slot h t
        ≡ run_callback wheel_size slot_ms script e.callback (release_entry h.index t)
  visit_calls p =
      let last : ltb 0 e.remaining_rounds ≡ false = ground (arith, p) in
      visit_found ∙ if-false _ _ fresh ∙ if-false _ _ uncancelled ∙ if-false _ _ last

module _ (wheel_size slot_ms : ℕ) (script : ℕ → List Call) (k : Handle) (callback slot : ℕ) where
  counted-Waits :
      (rounds : ℕ) (h : Handle) (rest : List Handle) (t : WheelTimer)
      → same_handle k h ≡ true
      → IsValid wheel_size rest (
          push_handle slot h
            (record t { entries = modify (countdown wheel_size slot_ms script) h.index t.entries }))
      → Waits wheel_size slot_ms script k callback (suc rounds) slot slot 0 (h ∷ rest) t
      → Waits wheel_size slot_ms script k callback rounds slot slot 1 rest (
          push_handle slot h
            (record t { entries = modify (countdown wheel_size slot_ms script) h.index t.entries }))
  counted-Waits rounds h rest t q v w =
      let f : Entry → Entry = countdown wheel_size slot_ms script in
      let inside : slot < length t.slots = omega (arith, w.valid.sized, w.valid.here, w.current) in
      record {
        valid = v;
        current = w.current;
        entry = f w.entry;
        found =
            subst (λ i. get_elem? (modify f i t.entries) k.index ≡ some (f w.entry))
              (sym (same_index k h q).0)
              (get_elem?-modify_self f k.index t.entries w.entry w.found);
        active = w.active;
        uncancelled = w.uncancelled;
        same = w.same;
        held = w.held;
        to_go = omega (arith, w.to_go);
        at_slot =
            ap (copies k) (get_or-modify_self (λ hs. hs ++ h ∷ []) slot t.slots [] inside)
            ∙ copies-append k (get_or t.slots slot []) h
            ∙ copies-own k h (get_or t.slots slot []) q
            ∙ ap suc w.at_slot;
        elsewhere = λ s n.
            ap (copies k) (get_or-modify_ne (λ hs. hs ++ h ∷ []) slot s t.slots [] n)
            ∙ w.elsewhere s n;
      }

  own_found :
      (rounds n : ℕ) (h : Handle) (rest : List Handle) (t : WheelTimer)
      → same_handle k h ≡ true
      → (w : Waits wheel_size slot_ms script k callback rounds slot slot n rest t)
      → get_elem? t.entries h.index ≡ some w.entry
  own_found rounds n h rest t q w = ap (get_elem? t.entries) (same_index k h q).0 ∙ w.found

  -- Its own visit takes a round off a timer that has one to go.
  pub visit_own :
      (compact : Bool) (rounds : ℕ) (h : Handle) (rest : List Handle) (t : WheelTimer)
      → same_handle k h ≡ true
      → Moves
          (Waits wheel_size slot_ms script k callback (suc rounds) slot slot 0 (h ∷ rest))
          (Waits wheel_size slot_ms script k callback rounds slot slot 1 rest)
          t
          (visit wheel_size slot_ms script compact slot h t)
  visit_own compact rounds h rest t q =
      let V : List Handle → WheelTimer → Type 0 = IsValid wheel_size in
      let (long, valid) =
        visit-Moves wheel_size slot_ms script V (λ x. Unit) (λ c. Unit)
          (IsValid-steps wheel_size slot_ms script) (λ name. All-units (script name)) compact slot h
          rest t tt in
      (
        long,
        λ w small.
            let e =
              visit_counts wheel_size slot_ms script compact slot h t w.entry
                (own_found (suc rounds) 0 h (h ∷ rest) t q w) w.active
                (w.same ∙ sym (same_index k h q).1) w.uncancelled (omega (arith, w.to_go)) in
            subst (Waits wheel_size slot_ms script k callback rounds slot slot 1 rest) (sym e)
              (counted-Waits rounds h rest t q (subst (V rest) e (valid w.valid small)) w),
      )

  -- Its own visit calls a timer that has no round to go.
  pub visit_last :
      (compact : Bool) (h : Handle) (rest : List Handle) (t : WheelTimer)
      → same_handle k h ≡ true
      → Moves
          (Waits wheel_size slot_ms script k callback 0 slot slot 0 (h ∷ rest))
          (Logged callback rest)
          t
          (visit wheel_size slot_ms script compact slot h t)
  visit_last compact h rest t q =
      let (long, valid) =
        visit-Moves wheel_size slot_ms script (IsValid wheel_size) (λ x. Unit) (λ c. Unit)
          (IsValid-steps wheel_size slot_ms script) (λ name. All-units (script name)) compact slot h
          rest t tt in
      (
        long,
        λ w small.
            let e =
              visit_calls wheel_size slot_ms script compact slot h t w.entry
                (own_found 0 0 h (h ∷ rest) t q w) w.active (w.same ∙ sym (same_index k h q).1)
                w.uncancelled w.to_go
              ∙ ap (λ c. run_callback wheel_size slot_ms script c (release_entry h.index t))
                  w.held in
            subst (Logged callback rest) (sym e) (
              run_callback-Logged wheel_size slot_ms script callback rest (release_entry h.index t)
                (subst (λ u. length u.entries ≤ 2 ^ 32) e small)),
      )
