-- ===== src/Timer/Acquire.antt =====
-- `acquire_entry` and `add` of the timer keep it valid.
use visage_dvachevsky_tempre.Base.{
  eq_or_ne, ℕ, suc, ◌+◌, ◌/◌, ◌%◌, ◌^◌, ◌≤◌, ◌<◌, ◌≡◌, ◌≢◌, refl, sym, ◌∙◌, ap, false, some, List,
  [], ◌∷◌, ◌++◌, length, get_elem?, modify, arith, inl, inr, length-modify, length-append,
  get_elem?-modify_self, get_elem?-modify_ne, get_elem?-append_last, get_elem?-past,
}
use mathlib.Core.Path.{subst}
use native.Mathlib.Nat.{mod-eq_of_lt}
use visage_dvachevsky_tempre.Timer.{
  Handle, Entry, WheelTimer, new_entry, renew, arm, acquire_from, acquire_entry, push_handle,
  add_ticks,
}
use visage_dvachevsky_tempre.Timer.Entries.{
  CleanAt, get_elem?-append_ne, pointing-one, pointing-none, used_at, occurrences, idle, idle_at,
  count_active, used, pointing, placed, idle-some, count_active-append, count_active-modify,
  idle-modify_self, idle-modify_ne, occurrences-ne, occurrences_self, used-modify_self,
  used-modify_ne, placed-push,
}
use visage_dvachevsky_tempre.Timer.Valid.{IsValid, Moves}

-- An entry that was just acquired.
pub record Acquired (t : WheelTimer) (i : ℕ) (u : WheelTimer) : Type 0 where
  pub entry : Entry
  pub found : get_elem? u.entries i ≡ some entry
  pub inactive : entry.active ≡ false
  pub uncancelled : entry.cancelled ≡ false
  pub others : (j : ℕ) → i ≢ j → get_elem? u.entries j ≡ get_elem? t.entries j
  pub unused : used t.entries i ≡ 0
  pub freed : (j : ℕ) → i ≢ j → occurrences j u.free_list ≡ occurrences j t.free_list
  pub taken : occurrences i u.free_list ≡ 0
  pub pending : u.pending_entries ≡ t.pending_entries + 1
  pub counted : count_active u.entries ≡ count_active t.entries
  pub kept : (u.slots ≡ t.slots) × (u.current_slot ≡ t.current_slot)

acquire_new :
    (wheel_size : ℕ) (rest : List Handle) (t : WheelTimer)
    → IsValid wheel_size rest t
    → t.free_list ≡ []
    → Acquired t (length t.entries) (record t {
      entries = t.entries ++ new_entry ∷ [];
      pending_entries = t.pending_entries + 1;
    })
unfolding occurrences
acquire_new wheel_size rest t v e = record {
  entry = new_entry;
  found = get_elem?-append_last t.entries new_entry;
  inactive = refl;
  uncancelled = refl;
  others = get_elem?-append_ne t.entries new_entry;
  unused = ap used_at (get_elem?-past t.entries (length t.entries) (omega arith));
  freed = λ j n. refl;
  taken = ap (occurrences (length t.entries)) e;
  pending = refl;
  counted = count_active-append t.entries new_entry ∙ omega arith;
  kept = (refl, refl);
}

acquire_free :
    (wheel_size : ℕ) (rest : List Handle) (t : WheelTimer) (i : ℕ) (is : List ℕ)
    → IsValid wheel_size rest t
    → t.free_list ≡ i ∷ is
    → Acquired t i (record t {
      entries = modify renew i t.entries;
      free_list = is;
      pending_entries = t.pending_entries + 1;
    })
acquire_free wheel_size rest t i is v q =
    let once : suc (occurrences i is) ≡ idle t.entries i =
      sym (occurrences_self i is) ∙ ap (occurrences i) (sym q) ∙ v.free i in
    let (e, found, inactive) = idle-some t.entries i (omega (arith, once)) in
    record {
      entry = renew e;
      found = get_elem?-modify_self renew i t.entries e found;
      inactive = inactive;
      uncancelled = subst CleanAt found (v.clean i) inactive;
      others = λ j n. get_elem?-modify_ne renew i j t.entries n;
      unused = ap used_at found ∙ ground (arith, inactive);
      freed = λ j n. sym (occurrences-ne i j is n) ∙ ap (occurrences j) (sym q);
      taken = ground (arith, once, found, inactive);
      pending = refl;
      counted = omega (arith, count_active-modify renew i t.entries e found);
      kept = (refl, refl);
    }

acquire_from-Acquired :
    (wheel_size : ℕ) (rest : List Handle) (t : WheelTimer) (is : List ℕ)
    → IsValid wheel_size rest t
    → t.free_list ≡ is
    → length (acquire_from is t).1.entries ≤ 2 ^ 32
    → Acquired t (acquire_from is t).0 (acquire_from is t).1
acquire_from-Acquired wheel_size rest t [] v q small =
    let whole : length t.entries % 2 ^ 32 ≡ length t.entries =
      mod-eq_of_lt (omega (arith, small, length-append t.entries (new_entry ∷ []))) in
    subst (λ i. Acquired t i (acquire_from [] t).1) (sym whole) (acquire_new wheel_size rest t v q)
acquire_from-Acquired wheel_size rest t (i ∷ is) v q small = acquire_free wheel_size rest t i is v q

length-acquire_from :
    (t : WheelTimer) (is : List ℕ) → length t.entries ≤ length (acquire_from is t).1.entries
length-acquire_from t [] = omega (arith, length-append t.entries (new_entry ∷ []))
length-acquire_from t (i ∷ is) = omega (arith, length-modify renew i t.entries)

length-acquire_entry : (t : WheelTimer) → length t.entries ≤ length (acquire_entry t).1.entries
unfolding acquire_entry
length-acquire_entry t = length-acquire_from t t.free_list

pub length-add_ticks :
    (wheel_size ticks callback : ℕ) (t : WheelTimer)
    → length (add_ticks wheel_size ticks callback t).1.entries ≡ length (acquire_entry t).1.entries
unfolding add_ticks
length-add_ticks wheel_size ticks callback t =
    length-modify
      (arm (ticks / wheel_size) ((t.current_slot + ticks % wheel_size) % wheel_size) callback)
      (acquire_entry t).0 (acquire_entry t).1.entries

pub acquire_entry-Acquired :
    (wheel_size : ℕ) (rest : List Handle) (t : WheelTimer)
    → IsValid wheel_size rest t
    → length (acquire_entry t).1.entries ≤ 2 ^ 32
    → Acquired t (acquire_entry t).0 (acquire_entry t).1
unfolding acquire_entry
acquire_entry-Acquired wheel_size rest t v small =
    acquire_from-Acquired wheel_size rest t t.free_list v refl small

-- An acquired entry that is set and has a handle in a slot.
armed-IsValid :
    (wheel_size : ℕ) (rest : List Handle) (t u : WheelTimer) (i g rounds slot callback : ℕ)
    → IsValid wheel_size rest t
    → Acquired t i u
    → IsValid wheel_size rest (
        push_handle slot
          (record { index = i; generation = g })
          (record u { entries = modify (arm rounds slot callback) i u.entries }))
armed-IsValid wheel_size rest t u i g rounds slot callback v a =
    let f : Entry → Entry = arm rounds slot callback in
    let h : Handle = record { index = i; generation = g } in
    let pushed : List (List Handle) = modify (λ hs. hs ++ h ∷ []) slot u.slots in
    let more : (j : ℕ) → placed j pushed ≤ placed j u.slots + pointing j (h ∷ []) =
      λ j. placed-push j slot h u.slots in
    let same : (j : ℕ) → placed j u.slots ≡ placed j t.slots = λ j. ap (placed j) a.kept.0 in
    record {
      sized = length-modify (λ hs. hs ++ h ∷ []) slot u.slots ∙ ap length a.kept.0 ∙ v.sized;
      here = subst (λ c. c < wheel_size) (sym a.kept.1) v.here;
      free = λ j. elim (eq_or_ne i j) [
        | inl e ↦
            subst (λ n. occurrences n u.free_list ≡ idle (modify f i u.entries) n) e
              (a.taken ∙ sym (idle-modify_self f i u.entries a.entry a.found))
        | inr n ↦
            a.freed j n
            ∙ v.free j
            ∙ ap idle_at (sym (a.others j n))
            ∙ sym (idle-modify_ne f i j u.entries n)
      ];
      counted = ground (
        arith,
        count_active-modify f i u.entries a.entry a.found,
        a.inactive,
        a.counted,
        a.pending,
        v.counted,
      );
      clean = λ j. elim (eq_or_ne i j) [
        | inl e ↦
            subst (λ n. CleanAt (get_elem? (modify f i u.entries) n)) e
              (subst CleanAt (sym (get_elem?-modify_self f i u.entries a.entry a.found))
                (λ q. absurd (ground (arith, q))))
        | inr n ↦
            subst CleanAt (sym (get_elem?-modify_ne f i j u.entries n ∙ a.others j n)) (v.clean j)
      ];
      handles = λ j. elim (eq_or_ne i j) [
        | inl e ↦
            subst (λ n. placed n pushed + pointing n rest ≤ used (modify f i u.entries) n) e
              (omega (
                arith,
                more i,
                same i,
                v.handles i,
                pointing-one i h,
                a.unused,
                used-modify_self f i u.entries a.entry a.found,
              ))
        | inr n ↦
            let kept : used (modify f i u.entries) j ≡ used t.entries j =
              used-modify_ne f i j u.entries n ∙ ap used_at (a.others j n) in
            omega (arith, more j, same j, v.handles j, pointing-none j h n, kept)
      ];
    }

added-IsValid :
    (wheel_size ticks callback : ℕ) (rest : List Handle) (t : WheelTimer)
    → IsValid wheel_size rest t
    → length (acquire_entry t).1.entries ≤ 2 ^ 32
    → IsValid wheel_size rest (add_ticks wheel_size ticks callback t).1
unfolding add_ticks
added-IsValid wheel_size ticks callback rest t v small =
    armed-IsValid wheel_size rest t (acquire_entry t).1 (acquire_entry t).0 _ _ _ callback v
      (acquire_entry-Acquired wheel_size rest t v small)

pub add_ticks-IsValid :
    (wheel_size ticks callback : ℕ) (rest : List Handle) (t : WheelTimer)
    → Moves
        (IsValid wheel_size rest)
        (IsValid wheel_size rest)
        t
        (add_ticks wheel_size ticks callback t).1
add_ticks-IsValid wheel_size ticks callback rest t =
    let long = length-add_ticks wheel_size ticks callback t in
    (
      omega (arith, long, length-acquire_entry t),
      λ v small. added-IsValid wheel_size ticks callback rest t v (omega (arith, long, small)),
    )
