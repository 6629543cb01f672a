-- ===== src/Timer/Visit.antt =====
-- `cancel`, `release_entry`, the callbacks and the loop of `advance_slot` keep the timer valid.
use visage_dvachevsky_tempre.Base.{
  eq_or_ne, ℕ, suc, ◌+◌, ◌≤◌, ◌≡◌, refl, sym, ◌∙◌, ap, Bool, true, false, Option, none, some, List,
  [], ◌∷◌, ◌++◌, length, get_elem?, modify, if◌then◌else◌, arith, if-elim, inl, inr, length-modify,
  get_elem?-modify_self, get_elem?-modify_ne,
}
use mathlib.Core.Path.{subst}
use visage_dvachevsky_tempre.Timer.{
  Handle, Entry, WheelTimer, retire, mark_cancelled, release_entry, push_handle, cancel, decode_id,
  is_stale,
}
use visage_dvachevsky_tempre.Timer.Entries.{
  CleanAt, pointing-ne, pointing-cons, pointing_self, used_at, occurrences, idle, idle_at, used,
  pointing, placed, count_active-modify, idle-modify_self, idle-modify_ne, occurrences-ne,
  occurrences_self, used-modify_self, used-modify_ne, placed-push,
}
use visage_dvachevsky_tempre.Timer.Valid.{IsValid, Moves}

-- An entry that is changed and stays in use.
pub kept-IsValid :
    (f : Entry → Entry) (wheel_size : ℕ) (rest : List Handle) (t : WheelTimer) (i : ℕ) (e : Entry)
    → get_elem? t.entries i ≡ some e
    → e.active ≡ true
    → (f e).active ≡ true
    → IsValid wheel_size rest t
    → IsValid wheel_size rest (record t { entries = modify f i t.entries })
kept-IsValid f wheel_size rest t i e found a b v =
    let same : (j : ℕ) → used (modify f i t.entries) j ≡ used t.entries j = λ j.
      elim (eq_or_ne i j) [
        | inl q ↦
            subst (λ n. used (modify f i t.entries) n ≡ used t.entries n) q
              (used-modify_self f i t.entries e found ∙ ground (arith, a, b, found))
        | inr n ↦ used-modify_ne f i j t.entries n
      ] in
    record {
      sized = v.sized;
      here = v.here;
      free = λ j. elim (eq_or_ne i j) [
        | inl q ↦
            subst (λ n. occurrences n t.free_list ≡ idle (modify f i t.entries) n) q
              (v.free i
                ∙ ap idle_at found
                ∙ ground (arith, a, b)
                ∙ sym (idle-modify_self f i t.entries e found))
        | inr n ↦ v.free j ∙ sym (idle-modify_ne f i j t.entries n)
      ];
      counted = ground (arith, count_active-modify f i t.entries e found, a, b, v.counted);
      clean = λ j. elim (eq_or_ne i j) [
        | inl q ↦
            subst (λ n. CleanAt (get_elem? (modify f i t.entries) n)) q
              (subst CleanAt (sym (get_elem?-modify_self f i t.entries e found))
                (λ d. absurd (ground (arith, d, b))))
        | inr n ↦ subst CleanAt (sym (get_elem?-modify_ne f i j t.entries n)) (v.clean j)
      ];
      handles = λ j. omega (arith, same j, v.handles j);
    }

-- `release_entry` on the entry of the handle that is visited.
pub released-IsValid :
    (wheel_size : ℕ) (h : Handle) (rest : List Handle) (t : WheelTimer) (e : Entry)
    → get_elem? t.entries h.index ≡ some e
    → e.active ≡ true
    → IsValid wheel_size (h ∷ rest) t
    → IsValid wheel_size rest (release_entry h.index t)
unfolding release_entry
released-IsValid wheel_size h rest t e found a v =
    let i : ℕ = h.index in
    let was : used t.entries i ≡ 1 = ap used_at found ∙ ground (arith, a) in
    let freed : occurrences i t.free_list ≡ 0 = v.free i ∙ ap idle_at found ∙ ground (arith, a) in
    let es : List Entry = modify retire i t.entries in
    record {
      sized = v.sized;
      here = v.here;
      free = λ j. elim (eq_or_ne i j) [
        | inl q ↦
            subst (λ n. occurrences n (i ∷ t.free_list) ≡ idle es n) q
              (occurrences_self i t.free_list
                ∙ ap suc freed
                ∙ sym (idle-modify_self retire i t.entries e found))
        | inr n ↦
            occurrences-ne i j t.free_list n
            ∙ v.free j
            ∙ sym (idle-modify_ne retire i j t.entries n)
      ];
      counted = ground (arith, count_active-modify retire i t.entries e found, a, v.counted);
      clean = λ j. elim (eq_or_ne i j) [
        | inl q ↦
            subst (λ n. CleanAt (get_elem? es n)) q
              (subst CleanAt (sym (get_elem?-modify_self retire i t.entries e found)) (λ d. refl))
        | inr n ↦ subst CleanAt (sym (get_elem?-modify_ne retire i j t.entries n)) (v.clean j)
      ];
      handles = λ j. elim (eq_or_ne i j) [
        | inl q ↦
            subst (λ n. placed n t.slots + pointing n rest ≤ used es n) q
              (omega (arith, v.handles i, pointing_self h rest, was))
        | inr n ↦
            omega
              (arith, v.handles j, pointing-ne j h rest n, used-modify_ne retire i j t.entries n)
      ];
    }

pub length-release_entry :
    (i : ℕ) (t : WheelTimer) → length (release_entry i t).entries ≡ length t.entries
unfolding release_entry
length-release_entry i t = length-modify retire i t.entries

-- A handle that goes back to its slot.
pub pushed-IsValid :
    (wheel_size slot : ℕ) (h : Handle) (rest : List Handle) (t : WheelTimer)
    → IsValid wheel_size (h ∷ rest) t
    → IsValid wheel_size rest (push_handle slot h t)
pushed-IsValid wheel_size slot h rest t v = record {
  sized = length-modify (λ hs. hs ++ h ∷ []) slot t.slots ∙ v.sized;
  here = v.here;
  free = v.free;
  counted = v.counted;
  clean = v.clean;
  handles = λ j. omega (arith, v.handles j, placed-push j slot h t.slots, pointing-cons j h rest);
}

pub dropped-IsValid :
    (wheel_size : ℕ) (h : Handle) (rest : List Handle) (t : WheelTimer)
    → IsValid wheel_size (h ∷ rest) t
    → IsValid wheel_size rest t
dropped-IsValid wheel_size h rest t v = record {
  sized = v.sized;
  here = v.here;
  free = v.free;
  counted = v.counted;
  clean = v.clean;
  handles = λ j. omega (arith, v.handles j, pointing-cons j h rest);
}

pub not_stale : (e : Entry) (g : ℕ) → is_stale e g ≡ false → (e.active ≡ true) × (e.generation ≡ g)
not_stale e g q = ground arith

pub cancelled-Moves :
    (P : WheelTimer → Type 0) (id : ℕ) (t : WheelTimer)
    → ((e : Entry)
        → get_elem? t.entries (decode_id id).index ≡ some e
        → e.active ≡ true
        → e.generation ≡ (decode_id id).generation
        → P t
        → P (record t { entries = modify mark_cancelled (decode_id id).index t.entries }))
    → Moves P P t (cancel id t).1
unfolding cancel
cancelled-Moves P id t marks = from (get_elem? t.entries i) refl
  where
    i : ℕ
    i = (decode_id id).index

    g : ℕ
    g = (decode_id id).generation

    marked : WheelTimer
    marked = record t { entries = modify mark_cancelled i t.entries }

    from :
        (o : Option Entry)
        → get_elem? t.entries i ≡ o
        → Moves P P t
            (elim o as (λ _. Bool × WheelTimer) [
              | none ↦ (false, t)
              | some e ↦ if is_stale e g then (false, t) else (true, marked)
            ]).1
    from none q = (omega arith, λ p small. p)
    from (some e) q =
        if-elim (λ (r : Bool × WheelTimer). Moves P P t r.1) (is_stale e g) (false, t)
          (true, marked) (λ stale. (omega arith, λ p small. p))
          (λ live. (
            omega (arith, length-modify mark_cancelled i t.entries),
            λ p small. marks e q (not_stale e g live).0 (not_stale e g live).1 p,
          ))

pub cancel-IsValid :
    (wheel_size id : ℕ) (rest : List Handle) (t : WheelTimer)
    → Moves (IsValid wheel_size rest) (IsValid wheel_size rest) t (cancel id t).1
cancel-IsValid wheel_size id rest t =
    cancelled-Moves (IsValid wheel_size rest) id t (λ e found a g v.
      kept-IsValid mark_cancelled wheel_size rest t (decode_id id).index e found a a v)
