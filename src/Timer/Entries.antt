-- ===== src/Timer/Entries.antt =====
-- The entries of the timer: which are free, and how many are in use.
use visage_dvachevsky_tempre.Base.{
  ℕ, zero, suc, ◌+◌, ◌-◌, ◌≤◌, ◌<◌, ◌≡◌, ◌≢◌, refl, ap, false, Option, none, some, List, [], ◌∷◌,
  ◌++◌, length, get_elem?, get_or, set, modify, ◌==◌, if◌then◌else◌, arith, get_elem?-modify_self,
  get_elem?-modify_ne,
}
use visage_dvachevsky_tempre.Timer.{Handle, Entry}

unfoldable pub occurrences : ℕ → List ℕ → ℕ
occurrences j [] = 0
occurrences j (i ∷ is) = (if i == j then 1 else 0) + occurrences j is

abbrev pub use_of : Entry → ℕ
use_of e = if e.active then 1 else 0

-- 1 for an entry that is not in use, 0 for the others and out of range.
abbrev pub idle_at : Option Entry → ℕ
idle_at none = 0
idle_at (some e) = 1 - use_of e

abbrev pub idle : List Entry → ℕ → ℕ
idle es j = idle_at (get_elem? es j)

unfoldable pub count_active : List Entry → ℕ
count_active [] = 0
count_active (e ∷ es) = use_of e + count_active es

pub idle-some :
    (es : List Entry) (i : ℕ)
    → 0 < idle es i
    → (e : Entry) × (get_elem? es i ≡ some e) × (e.active ≡ false)
idle-some es i h = from (get_elem? es i) refl h
  where
    from :
        (o : Option Entry)
        → get_elem? es i ≡ o
        → 0 < idle_at o
        → (e : Entry) × (get_elem? es i ≡ some e) × (e.active ≡ false)
    from none q p = absurd (omega arith)
    from (some e) q p = (e, q, ground arith)

pub get_elem?-append_ne :
    (es : List Entry) (e : Entry) (j : ℕ)
    → length es ≢ j
    → get_elem? (es ++ e ∷ []) j ≡ get_elem? es j
get_elem?-append_ne [] e zero n = absurd (n refl)
get_elem?-append_ne [] e (suc j) n = refl
get_elem?-append_ne (x ∷ es) e zero n = refl
get_elem?-append_ne (x ∷ es) e (suc j) n = get_elem?-append_ne es e j (λ q. n (ap suc q))

-- An entry out of use is not cancelled.
abbrev pub CleanAt : Option Entry → Type 0
CleanAt none = Unit
CleanAt (some e) = e.active ≡ false → e.cancelled ≡ false

pub count_active-append :
    (es : List Entry) (e : Entry) → count_active (es ++ e ∷ []) ≡ count_active es + use_of e
unfolding count_active
count_active-append [] e = omega arith
count_active-append (x ∷ es) e = omega (arith, count_active-append es e)

pub count_active-modify :
    (f : Entry → Entry) (i : ℕ) (es : List Entry) (e : Entry)
    → get_elem? es i ≡ some e
    → count_active (modify f i es) + use_of e ≡ count_active es + use_of (f e)
unfolding count_active
count_active-modify f i [] e h = absurd (ground arith)
count_active-modify f zero (x ∷ es) e h = ground arith
count_active-modify f (suc i) (x ∷ es) e h = omega (arith, count_active-modify f i es e h)

pub idle-modify_self :
    (f : Entry → Entry) (i : ℕ) (es : List Entry) (e : Entry)
    → get_elem? es i ≡ some e
    → idle (modify f i es) i ≡ 1 - use_of (f e)
idle-modify_self f i es e h = ap idle_at (get_elem?-modify_self f i es e h)

pub idle-modify_ne :
    (f : Entry → Entry) (i j : ℕ) (es : List Entry) → i ≢ j → idle (modify f i es) j ≡ idle es j
idle-modify_ne f i j es h = ap idle_at (get_elem?-modify_ne f i j es h)

pub occurrences-ne : (i j : ℕ) (is : List ℕ) → i ≢ j → occurrences j (i ∷ is) ≡ occurrences j is
unfolding occurrences
occurrences-ne i j is h = ground arith

pub occurrences_self : (i : ℕ) (is : List ℕ) → occurrences i (i ∷ is) ≡ suc (occurrences i is)
unfolding occurrences
occurrences_self i is = ground arith

-- 1 for an entry in use, 0 for the others and out of range.
abbrev pub used_at : Option Entry → ℕ
used_at none = 0
used_at (some e) = use_of e

abbrev pub used : List Entry → ℕ → ℕ
used es j = used_at (get_elem? es j)

pub used-modify_self :
    (f : Entry → Entry) (i : ℕ) (es : List Entry) (e : Entry)
    → get_elem? es i ≡ some e
    → used (modify f i es) i ≡ use_of (f e)
used-modify_self f i es e h = ap used_at (get_elem?-modify_self f i es e h)

pub used-modify_ne :
    (f : Entry → Entry) (i j : ℕ) (es : List Entry) → i ≢ j → used (modify f i es) j ≡ used es j
used-modify_ne f i j es h = ap used_at (get_elem?-modify_ne f i j es h)

-- How many handles point to an entry.
unfoldable pub pointing : ℕ → List Handle → ℕ
pointing j [] = 0
pointing j (h ∷ hs) = (if h.index == j then 1 else 0) + pointing j hs

unfoldable pub placed : ℕ → List (List Handle) → ℕ
placed j [] = 0
placed j (hs ∷ slots) = pointing j hs + placed j slots

pub pointing-append :
    (j : ℕ) (hs : List Handle) (h : Handle) → pointing j (hs ++ h ∷ []) ≡ pointing j (h ∷ hs)
unfolding pointing
pointing-append j [] h = refl
pointing-append j (x ∷ hs) h = let e = pointing-append j hs h in omega (arith, e)

pub placed-push :
    (j s : ℕ) (h : Handle) (slots : List (List Handle))
    → placed j (modify (λ hs. hs ++ h ∷ []) s slots) ≤ placed j slots + pointing j (h ∷ [])
unfolding placed pointing
placed-push j s h [] = omega arith
placed-push j zero h (hs ∷ slots) = let e = pointing-append j hs h in omega (arith, e)
placed-push j (suc s) h (hs ∷ slots) = omega (arith, placed-push j s h slots)

pub placed-set :
    (j s : ℕ) (slots : List (List Handle))
    → placed j (set slots s []) + pointing j (get_or slots s []) ≡ placed j slots
unfolding placed pointing
placed-set j s [] = refl
placed-set j zero (hs ∷ slots) = omega arith
placed-set j (suc s) (hs ∷ slots) = omega (arith, placed-set j s slots)

pub pointing-ne :
    (j : ℕ) (h : Handle) (hs : List Handle) → h.index ≢ j → pointing j (h ∷ hs) ≡ pointing j hs
unfolding pointing
pointing-ne j h hs n = ground arith

pub pointing-one : (j : ℕ) (h : Handle) → pointing j (h ∷ []) ≤ 1
unfolding pointing
pointing-one j h = ground arith

pub pointing-cons :
    (j : ℕ) (h : Handle) (hs : List Handle)
    → pointing j (h ∷ hs) ≡ pointing j (h ∷ []) + pointing j hs
unfolding pointing
pointing-cons j h hs = ground arith

pub pointing-none : (j : ℕ) (h : Handle) → h.index ≢ j → pointing j (h ∷ []) ≡ 0
unfolding pointing
pointing-none j h n = ground arith

pub pointing_self :
    (h : Handle) (hs : List Handle) → pointing h.index (h ∷ hs) ≡ suc (pointing h.index hs)
unfolding pointing
pointing_self h hs = ground arith
