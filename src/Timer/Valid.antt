-- ===== src/Timer/Valid.antt =====
-- What holds of the timer between its calls, and of a slot's handles while `advance_slot` visits them.
use visage_dvachevsky_tempre.Base.{
  ℕ, zero, suc, ◌+◌, ◌^◌, ◌≤◌, ◌<◌, ◌≡◌, refl, List, [], length, get_elem?, arith, length-replicate,
  replicate,
}
use visage_dvachevsky_tempre.Timer.{new_timer, Handle, WheelTimer}
use visage_dvachevsky_tempre.Timer.Entries.{
  CleanAt, occurrences, idle, count_active, used, pointing, placed,
}

-- The free list holds each entry out of use once, the pending count is that of the entries in use, an
-- entry out of use is not cancelled, and at most one handle, in a slot or among those that are still to
-- be visited, points to an entry, and only to one in use.
pub record IsValid (wheel_size : ℕ) (rest : List Handle) (t : WheelTimer) : Type 0 where
  pub sized : length t.slots ≡ wheel_size
  pub here : t.current_slot < wheel_size
  pub free : (j : ℕ) → occurrences j t.free_list ≡ idle t.entries j
  pub counted : t.pending_entries ≡ count_active t.entries
  pub clean : (j : ℕ) → CleanAt (get_elem? t.entries j)
  pub handles : (j : ℕ) → placed j t.slots + pointing j rest ≤ used t.entries j

-- A step adds entries at most, and takes one property to another as long as an index has 32 bits.
abbrev pub Moves : (P Q : WheelTimer → Type 0) → WheelTimer → WheelTimer → Type 0
Moves P Q t u = (length t.entries ≤ length u.entries) × (P t → length u.entries ≤ 2 ^ 32 → Q u)

pub Moves-then :
    (P Q R : WheelTimer → Type 0) (t u v : WheelTimer)
    → Moves P Q t u
    → Moves Q R u v
    → Moves P R t v
Moves-then P Q R t u v a b =
    (omega (arith, a.0, b.0), λ p small. b.1 (a.1 p (omega (arith, b.0, small))) small)

no_handles : (n j : ℕ) → placed j (replicate n []) ≡ 0
unfolding placed pointing
no_handles zero j = refl
no_handles (suc n) j = omega (arith, no_handles n j)

-- A new timer is valid, for a wheel with a slot at least.
pub new_timer-IsValid :
    (wheel_size now : ℕ) → 0 < wheel_size → IsValid wheel_size [] (new_timer wheel_size now)
unfolding new_timer occurrences pointing count_active
new_timer-IsValid wheel_size now h = record {
  sized = length-replicate wheel_size [];
  here = h;
  free = λ j. refl;
  counted = refl;
  clean = λ j. tt;
  handles = λ j. omega (arith, no_handles wheel_size j);
}
