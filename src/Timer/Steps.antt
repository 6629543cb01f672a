-- ===== src/Timer/Steps.antt =====
-- Properties that the loop of `advance_slot` keeps, from those that its steps keep.
use visage_dvachevsky_tempre.Base.{
  ℕ, ◌≡◌, refl, Bool, true, Option, none, some, List, [], ◌∷◌, ◌++◌, get_elem?, modify, ltb, arith,
  All, if-elim, length-modify,
}
use visage_dvachevsky_tempre.Timer.{
  Handle, Entry, WheelTimer, Call, release_entry, push_handle, is_stale, perform, perform_calls,
  run_callback, visit_entry, visit, visit_all, countdown,
}
use visage_dvachevsky_tempre.Timer.Valid.{Moves, Moves-then}
use visage_dvachevsky_tempre.Timer.Visit.{not_stale, length-release_entry}

-- The template's arguments and what the callbacks do; `P` may speak of the handles that are still to be
-- visited.
module _ (wheel_size slot_ms : ℕ) (script : ℕ → List Call) where
  -- What a property needs for the loop to keep it, on handles and calls that it allows.
  pub record Steps (P : List Handle → WheelTimer → Type 0) (Other : Handle → Type 0)
      (Allowed : Call → Type 0) : Type 0 where
    pub performs :
        (c : Call) (rest : List Handle) (t : WheelTimer)
        → Allowed c
        → Moves (P rest) (P rest) t (perform wheel_size slot_ms script c t)
    pub logs :
        (name : ℕ) (rest : List Handle) (t : WheelTimer)
        → P rest t
        → P rest (record t { called = t.called ++ name ∷ [] })
    pub drops :
        (h : Handle) (rest : List Handle) (t : WheelTimer) → Other h → P (h ∷ rest) t → P rest t
    pub pushes :
        (slot : ℕ) (h : Handle) (rest : List Handle) (t : WheelTimer)
        → Other h
        → P (h ∷ rest) t
        → P rest (push_handle slot h t)
    pub counts :
        (h : Handle) (rest : List Handle) (t : WheelTimer) (e : Entry)
        → Other h
        → get_elem? t.entries h.index ≡ some e
        → e.active ≡ true
        → e.generation ≡ h.generation
        → P (h ∷ rest) t
        → P
            (h ∷ rest)
            (record t { entries = modify (countdown wheel_size slot_ms script) h.index t.entries })
    pub releases :
        (h : Handle) (rest : List Handle) (t : WheelTimer) (e : Entry)
        → Other h
        → get_elem? t.entries h.index ≡ some e
        → e.active ≡ true
        → e.generation ≡ h.generation
        → P (h ∷ rest) t
        → P rest (release_entry h.index t)

  module _ (P : List Handle → WheelTimer → Type 0) (Other : Handle → Type 0)
      (Allowed : Call → Type 0) (steps : Steps P Other Allowed)
      (allowed : (name : ℕ) → All Allowed (script name)) where
    pub perform_calls-Moves :
        (cs : List Call) (rest : List Handle) (t : WheelTimer)
        → All Allowed cs
        → Moves (P rest) (P rest) t (perform_calls wheel_size slot_ms script cs t)
    unfolding perform_calls
    perform_calls-Moves [] rest t a = (omega arith, λ p small. p)
    perform_calls-Moves (c ∷ cs) rest t a =
        Moves-then (P rest) (P rest) (P rest) t (perform wheel_size slot_ms script c t) _
          (steps.performs c rest t a.0)
          (perform_calls-Moves cs rest (perform wheel_size slot_ms script c t) a.1)

    pub run_callback-Moves :
        (c : Option ℕ) (rest : List Handle) (t : WheelTimer)
        → Moves (P rest) (P rest) t (run_callback wheel_size slot_ms script c t)
    unfolding run_callback
    run_callback-Moves none rest t = (omega arith, λ p small. p)
    run_callback-Moves (some name) rest t =
        let logged : WheelTimer = record t { called = t.called ++ name ∷ [] } in
        Moves-then (P rest) (P rest) (P rest) t logged _
          (omega arith, λ p small. steps.logs name rest t p)
          (perform_calls-Moves (script name) rest logged (allowed name))

    visit_entry-Moves :
        (compact : Bool) (slot : ℕ) (h : Handle) (rest : List Handle) (t : WheelTimer) (e : Entry)
        → Other h
        → get_elem? t.entries h.index ≡ some e
        → Moves (P (h ∷ rest)) (P rest) t (visit_entry wheel_size slot_ms script compact slot h e t)
    visit_entry-Moves compact slot h rest t e other found =
        let M : WheelTimer → Type 0 = Moves (P (h ∷ rest)) (P rest) t in
        if-elim M (is_stale e h.generation) _ _
          (λ s. (omega arith, λ p small. steps.drops h rest t other p))
          (λ s.
            let (a, g) = not_stale e h.generation s in
            let freed : M (release_entry h.index t) = (
              omega (arith, length-release_entry h.index t),
              λ p small. steps.releases h rest t e other found a g p,
            ) in
            let pushed : M (push_handle slot h t) =
              (omega arith, λ p small. steps.pushes slot h rest t other p) in
            let f : Entry → Entry = countdown wheel_size slot_ms script in
            if-elim M e.cancelled _ _ (λ c. if-elim M compact _ _ (λ k. freed) (λ k. pushed))
              (λ c.
                if-elim M (ltb 0 e.remaining_rounds) _ _
                  (λ k. (
                    omega (arith, length-modify f h.index t.entries),
                    λ p small.
                        steps.pushes slot h rest (record t { entries = modify f h.index t.entries })
                          other (steps.counts h rest t e other found a g p),
                  ))
                  (λ k.
                    Moves-then (P (h ∷ rest)) (P rest) (P rest) t (release_entry h.index t) _ freed
                      (run_callback-Moves e.callback rest (release_entry h.index t)))))

    pub visit-Moves :
        (compact : Bool) (slot : ℕ) (h : Handle) (rest : List Handle) (t : WheelTimer)
        → Other h
        → Moves (P (h ∷ rest)) (P rest) t (visit wheel_size slot_ms script compact slot h t)
    unfolding visit
    visit-Moves compact slot h rest t other = from (get_elem? t.entries h.index) refl
      where
        from :
            (o : Option Entry)
            → get_elem? t.entries h.index ≡ o
            → Moves (P (h ∷ rest)) (P rest) t (elim o as (λ _. WheelTimer) [
              | none ↦ t
              | some e ↦ visit_entry wheel_size slot_ms script compact slot h e t
            ])
        from none q = (omega arith, λ p small. steps.drops h rest t other p)
        from (some e) q = visit_entry-Moves compact slot h rest t e other q

    pub visit_all-Moves :
        (compact : Bool) (slot : ℕ) (hs : List Handle) (t : WheelTimer)
        → All Other hs
        → Moves (P hs) (P []) t (visit_all wheel_size slot_ms script compact slot hs t)
    unfolding visit_all
    visit_all-Moves compact slot [] t others = (omega arith, λ p small. p)
    visit_all-Moves compact slot (h ∷ hs) t others =
        let u : WheelTimer = visit wheel_size slot_ms script compact slot h t in
        Moves-then (P (h ∷ hs)) (P hs) (P []) t u _ (visit-Moves compact slot h hs t others.0)
          (visit_all-Moves compact slot hs u others.1)
