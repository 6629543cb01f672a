-- ===== src/Timer/Waits.antt =====
-- One timer that waits, while the others are visited and their callbacks run.
use visage_dvachevsky_tempre.Base.{
  ℕ, zero, suc, ◌+◌, ◌^◌, ◌≤◌, ◌≡◌, ◌≢◌, refl, sym, ◌∙◌, ap, Bool, true, false, ◌&&◌, some, List,
  [], ◌∷◌, ◌++◌, length, get_elem?, get_or, modify, ◌==◌, if◌then◌else◌, arith, get_elem?-modify_ne,
}
use mathlib.Core.Path.{subst}
use visage_dvachevsky_tempre.Timer.{
  Handle, Entry, WheelTimer, Call, retire, mark_cancelled, acquire_entry, release_entry,
  push_handle, add_ticks, decode_id, perform, countdown, ticks_of,
}
use visage_dvachevsky_tempre.Timer.Entries.{used_at, used, pointing, placed}
use visage_dvachevsky_tempre.Timer.Valid.{Moves}
use visage_dvachevsky_tempre.Timer.Valid.{IsValid}
use visage_dvachevsky_tempre.Timer.Acquire.{add_ticks-IsValid}
use visage_dvachevsky_tempre.Timer.Visit.{
  kept-IsValid, released-IsValid, pushed-IsValid, dropped-IsValid,
}
use visage_dvachevsky_tempre.Timer.Steps.{Steps}
use visage_dvachevsky_tempre.Timer.Acquire.{Acquired, acquire_entry-Acquired, length-add_ticks}
use visage_dvachevsky_tempre.Timer.Visit.{cancelled-Moves}
use visage_dvachevsky_tempre.Timer.Advance.{logged-IsValid}

abbrev pub same_handle : Handle → Handle → Bool
same_handle k h = k.index == h.index && k.generation == h.generation

-- How often a handle stands among others.
unfoldable pub copies : Handle → List Handle → ℕ
copies k [] = 0
copies k (h ∷ hs) = (if same_handle k h then 1 else 0) + copies k hs

pub copies-append :
    (k : Handle) (hs : List Handle) (h : Handle) → copies k (hs ++ h ∷ []) ≡ copies k (h ∷ hs)
unfolding copies
copies-append k [] h = refl
copies-append k (x ∷ hs) h = let e = copies-append k hs h in omega (arith, e)

pub copies-other :
    (k h : Handle) (hs : List Handle) → same_handle k h ≡ false → copies k (h ∷ hs) ≡ copies k hs
unfolding copies
copies-other k h hs q = ground (arith, q)

pub copies-own :
    (k h : Handle) (hs : List Handle)
    → same_handle k h ≡ true
    → copies k (h ∷ hs) ≡ suc (copies k hs)
unfolding copies
copies-own k h hs q = ground (arith, q)

pub copies-pointing : (k : Handle) (hs : List Handle) → copies k hs ≤ pointing k.index hs
unfolding copies pointing
copies-pointing k [] = omega arith
copies-pointing k (h ∷ hs) = let e = copies-pointing k hs in ground (arith, e)

pub copies-placed :
    (k : Handle) (s : ℕ) (slots : List (List Handle))
    → copies k (get_or slots s []) ≤ placed k.index slots
unfolding placed copies
copies-placed k s [] = omega arith
copies-placed k zero (hs ∷ slots) = omega (arith, copies-pointing k hs)
copies-placed k (suc s) (hs ∷ slots) = omega (arith, copies-placed k s slots)

copies-push_other :
    (k h : Handle) (slot s : ℕ) (slots : List (List Handle))
    → same_handle k h ≡ false
    → copies k (get_or (modify (λ hs. hs ++ h ∷ []) slot slots) s []) ≡ copies k (get_or slots s [])
copies-push_other k h slot s [] q = refl
copies-push_other k h zero zero (hs ∷ slots) q = copies-append k hs h ∙ copies-other k h hs q
copies-push_other k h zero (suc s) (hs ∷ slots) q = refl
copies-push_other k h (suc slot) zero (hs ∷ slots) q = refl
copies-push_other k h (suc slot) (suc s) (hs ∷ slots) q = copies-push_other k h slot s slots q

module _ (wheel_size slot_ms : ℕ) (script : ℕ → List Call) (k : Handle)
    (callback rounds slot : ℕ) where
  -- The timer `k` waits for its slot, where `n` handles of it are; `c` is the current slot.
  pub record Waits (c n : ℕ) (rest : List Handle) (t : WheelTimer) : Type 0 where
    pub valid : IsValid wheel_size rest t
    pub current : t.current_slot ≡ c
    pub entry : Entry
    pub found : get_elem? t.entries k.index ≡ some entry
    pub active : entry.active ≡ true
    pub uncancelled : entry.cancelled ≡ false
    pub same : entry.generation ≡ k.generation
    pub held : entry.callback ≡ some callback
    pub to_go : entry.remaining_rounds ≡ rounds
    pub at_slot : copies k (get_or t.slots slot []) ≡ n
    pub elsewhere : (s : ℕ) → slot ≢ s → copies k (get_or t.slots s []) ≡ 0

  -- What leaves the entry and the handles of `k` alone.
  pub still :
      (c d n : ℕ) (rest others : List Handle) (t u : WheelTimer)
      → Waits c n rest t
      → IsValid wheel_size others u
      → u.current_slot ≡ d
      → get_elem? u.entries k.index ≡ get_elem? t.entries k.index
      → ((s : ℕ) → copies k (get_or u.slots s []) ≡ copies k (get_or t.slots s []))
      → Waits d n others u
  still c d n rest others t u w v here entries slots = record {
    valid = v;
    current = here;
    entry = w.entry;
    found = entries ∙ w.found;
    active = w.active;
    uncancelled = w.uncancelled;
    same = w.same;
    held = w.held;
    to_go = w.to_go;
    at_slot = slots slot ∙ w.at_slot;
    elsewhere = λ s e. slots s ∙ w.elsewhere s e;
  }

  -- Another handle that is not stale points to another entry.
  apart :
      (c n : ℕ) (rest : List Handle) (t : WheelTimer) (h : Handle) (e : Entry)
      → Waits c n rest t
      → same_handle k h ≡ false
      → get_elem? t.entries h.index ≡ some e
      → e.generation ≡ h.generation
      → h.index ≢ k.index
  apart c n rest t h e w other found g q =
      let both : some e ≡ some w.entry = sym found ∙ ap (get_elem? t.entries) q ∙ w.found in
      ground (arith, both, other, q, g, w.same)

  modified :
      (f : Entry → Entry) (c n : ℕ) (rest others : List Handle) (t : WheelTimer) (h : Handle)
      (e : Entry)
      → Waits c n rest t
      → same_handle k h ≡ false
      → get_elem? t.entries h.index ≡ some e
      → e.generation ≡ h.generation
      → get_elem? (modify f h.index t.entries) k.index ≡ get_elem? t.entries k.index
  modified f c n rest others t h e w other found g =
      get_elem?-modify_ne f h.index k.index t.entries (apart c n rest t h e w other found g)

  -- The calls that do not cancel `k`.
  abbrev pub Spares : Call → Type 0
  Spares (Call.schedule timeout callback) = Unit
  Spares (Call.unschedule id) = same_handle k (decode_id id) ≡ false

  abbrev pub Other : Handle → Type 0
  Other h = same_handle k h ≡ false

  added-Waits :
      (ticks callback' c n : ℕ) (rest : List Handle) (t : WheelTimer)
      → length (add_ticks wheel_size ticks callback' t).1.entries ≤ 2 ^ 32
      → Waits c n rest t
      → Waits c n rest (add_ticks wheel_size ticks callback' t).1
  unfolding add_ticks
  added-Waits ticks callback' c n rest t small w =
      let u : WheelTimer = (acquire_entry t).1 in
      let i : ℕ = (acquire_entry t).0 in
      let a : Acquired t i u =
        acquire_entry-Acquired wheel_size rest t w.valid
          (subst (λ m. m ≤ 2 ^ 32) (length-add_ticks wheel_size ticks callback' t) small) in
      let apart : i ≢ k.index =
        λ q. ground (arith, ap (used t.entries) q, a.unused, ap used_at w.found, w.active) in
      let h : Handle = (add_ticks wheel_size ticks callback' t).0 in
      still c c n rest rest t (add_ticks wheel_size ticks callback' t).1 w
        ((add_ticks-IsValid wheel_size ticks callback' rest t).1 w.valid small)
        (a.kept.1 ∙ w.current)
        (get_elem?-modify_ne _ i k.index u.entries apart ∙ a.others k.index apart)
        (λ s.
          copies-push_other k h _ s u.slots (ground (arith, apart))
          ∙ ap (λ l. copies k (get_or l s [])) a.kept.0)

  performs_lem :
      (c n : ℕ) (o : Call) (rest : List Handle) (t : WheelTimer)
      → Spares o
      → Moves (Waits c n rest) (Waits c n rest) t (perform wheel_size slot_ms script o t)
  performs_lem c n (Call.schedule timeout name) rest t a = (
    (add_ticks-IsValid wheel_size (ticks_of slot_ms timeout) name rest t).0,
    λ w small. added-Waits (ticks_of slot_ms timeout) name c n rest t small w,
  )
  performs_lem c n (Call.unschedule id) rest t a =
      cancelled-Moves (Waits c n rest) id t (λ e found active g w.
        still c c n rest rest t _ w
          (kept-IsValid mark_cancelled wheel_size rest t (decode_id id).index e found active active
            w.valid)
          w.current (modified mark_cancelled c n rest rest t (decode_id id) e w a found g)
          (λ s. refl))

  released-Waits :
      (c n : ℕ) (h : Handle) (rest : List Handle) (t : WheelTimer) (e : Entry)
      → Other h
      → get_elem? t.entries h.index ≡ some e
      → e.active ≡ true
      → e.generation ≡ h.generation
      → Waits c n (h ∷ rest) t
      → Waits c n rest (release_entry h.index t)
  unfolding release_entry
  released-Waits c n h rest t e o found a g w =
      still c c n (h ∷ rest) rest t (release_entry h.index t) w
        (released-IsValid wheel_size h rest t e found a w.valid) w.current
        (modified retire c n (h ∷ rest) rest t h e w o found g) (λ s. refl)

  pub Waits-steps : (c n : ℕ) → Steps wheel_size slot_ms script (Waits c n) Other Spares
  Waits-steps c n = record {
    performs = performs_lem c n;
    logs = λ name rest t w.
        still c c n rest rest t _ w
          (logged-IsValid wheel_size (t.called ++ name ∷ []) rest t w.valid) w.current refl
          (λ s. refl);
    drops = λ h rest t o w.
        still c c n (h ∷ rest) rest t t w (dropped-IsValid wheel_size h rest t w.valid) w.current
          refl (λ s. refl);
    pushes = λ slot' h rest t o w.
        still c c n (h ∷ rest) rest t (push_handle slot' h t) w
          (pushed-IsValid wheel_size slot' h rest t w.valid) w.current refl
          (λ s. copies-push_other k h slot' s t.slots o);
    counts = λ h rest t e o found a g w.
        let f : Entry → Entry = countdown wheel_size slot_ms script in
        still c c n (h ∷ rest) (h ∷ rest) t _ w
          (kept-IsValid f wheel_size (h ∷ rest) t h.index e found a a w.valid) w.current
          (modified f c n (h ∷ rest) rest t h e w o found g) (λ s. refl);
    releases = λ h rest t e o found a g w. released-Waits c n h rest t e o found a g w;
  }
