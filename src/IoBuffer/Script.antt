-- ===== src/IoBuffer/Script.antt =====
-- Any sequence of operations on an `io_buffer` acts as on a queue of bytes.
use visage_dvachevsky_tempre.Base.{
  ℕ, ◌+◌, ◌^◌, ◌≤◌, ◌<◌, ◌≡◌, refl, ◌∙◌, ap, append-nil, true, false, Option, none, some, List, [],
  ◌∷◌, ◌++◌, Bytes, length, drop, All, arith,
}
use visage_dvachevsky_tempre.IoBuffer.{
  IoBuffer, Heap, readable_span, new_buffer, append, writable_span, consume, clear, reserve,
}
use visage_dvachevsky_tempre.IoBuffer.Room.{IsValid}
use visage_dvachevsky_tempre.IoBuffer.Laws.{
  Appended, SpanOk, append_lem, writable_span_lem, fill_span, consume_lem, clear_lem, reserve_lem,
  new_buffer_lem, Fresh,
}

-- A call of the buffer; `fill` is `writable_span`, the copy into the span, and `commit`.
pub data Call : Type 0 where
  append_call fill_call : Bytes → Call
  consume_call reserve_call : ℕ → Call
  clear_call : Call

unfoldable pub perform : Heap → Call → IoBuffer → Option IoBuffer
perform heap (append_call text) b = append heap text b
perform heap (fill_call text) b = elim (writable_span heap (length text) b) [
  | none ↦ none
  | some s ↦ some (fill_span text s)
]
perform heap (consume_call n) b = some (consume n b)
perform heap (reserve_call n) b = reserve heap n b
perform heap clear_call b = some (clear b)

unfoldable pub perform_all : Heap → List Call → IoBuffer → Option IoBuffer
perform_all heap [] b = some b
perform_all heap (c ∷ cs) b = elim (perform heap c b) [
  | none ↦ none
  | some b' ↦ perform_all heap cs b'
]

-- The queue of bytes.
unfoldable pub on_queue : Call → Bytes → Bytes
on_queue (append_call text) q = q ++ text
on_queue (fill_call text) q = q ++ text
on_queue (consume_call n) q = drop n q
on_queue (reserve_call n) q = q
on_queue clear_call q = []

unfoldable pub all_on_queue : List Call → Bytes → Bytes
all_on_queue [] q = q
all_on_queue (c ∷ cs) q = all_on_queue cs (on_queue c q)

-- The bytes that a call adds, and the capacities that it asks for.
abbrev pub adds : Call → ℕ
adds (append_call text) = length text
adds (fill_call text) = length text
adds _ = 0

abbrev pub total : List Call → ℕ
total [] = 0
total (c ∷ cs) = adds c + total cs

abbrev pub IsSmall : Call → Type 0
IsSmall (reserve_call n) = n < 2 ^ 64
IsSmall _ = Unit {0}

-- What a call leaves of a queue, or there was no memory.
abbrev Refines : Heap → ℕ → Bytes → Option IoBuffer → Type 0
Refines heap limit q none = heap.has_memory ≡ false
Refines heap limit q (some b) = IsValid b × (readable_span b ≡ q) × (b.write_pos ≤ limit)

from_Appended :
    (heap : Heap) (text : Bytes) (b : IoBuffer) (o : Option IoBuffer)
    → Appended heap text b o
    → Refines heap (b.write_pos + length text) (readable_span b ++ text) o
from_Appended heap text b none h = h
from_Appended heap text b (some c) h = h

from_span :
    (heap : Heap) (text : Bytes) (b : IoBuffer) (o : Option (IoBuffer × ℕ))
    → SpanOk heap text b o
    → Refines heap
        (b.write_pos + length text)
        (readable_span b ++ text)
        (elim o [ none ↦ none | some s ↦ some (fill_span text s) ])
from_span heap text b none h = h
from_span heap text b (some s) h = h.2

widen :
    (heap : Heap) (limit limit' : ℕ) (q q' : Bytes) (o : Option IoBuffer)
    → limit ≤ limit'
    → q ≡ q'
    → Refines heap limit q o
    → Refines heap limit' q' o
widen heap limit limit' q q' none h e r = r
widen heap limit limit' q q' (some b) h e r = (r.0, r.1 ∙ e, omega (arith, r.2, h))

perform-Refines :
    (heap : Heap) (c : Call) (b : IoBuffer)
    → IsValid b
    → IsSmall c
    → b.write_pos + adds c < 2 ^ 64
    → Refines heap (b.write_pos + adds c) (on_queue c (readable_span b)) (perform heap c b)
unfolding perform on_queue
perform-Refines heap (append_call text) b v s h =
    from_Appended heap text b (append heap text b) (append_lem heap text b v h)
perform-Refines heap (fill_call text) b v s h =
    from_span heap text b (writable_span heap (length text) b) (writable_span_lem heap text b v h)
perform-Refines heap (consume_call n) b v s h =
    let (valid, bytes, less) = consume_lem n b v in (valid, bytes, omega (arith, less))
perform-Refines heap (reserve_call n) b v s h =
    widen heap (b.write_pos + 0) (b.write_pos + 0) _ (readable_span b) (reserve heap n b)
      (omega arith) (append-nil (readable_span b))
      (from_Appended heap [] b (reserve heap n b) (reserve_lem heap n b v s))
perform-Refines heap clear_call b v s h =
    let (valid, bytes, zero_pos) = clear_lem b v in (valid, bytes, omega (arith, zero_pos))

perform_all-Refines :
    (heap : Heap) (cs : List Call) (q : Bytes) (limit : ℕ) (o : Option IoBuffer)
    → Refines heap limit q o
    → All IsSmall cs
    → limit + total cs < 2 ^ 64
    → Refines heap
        (limit + total cs)
        (all_on_queue cs q)
        (elim o [ none ↦ none | some b ↦ perform_all heap cs b ])
unfolding perform_all all_on_queue
perform_all-Refines heap [] q limit none r s h = r
perform_all-Refines heap [] q limit (some b) r s h = (r.0, r.1, omega (arith, r.2))
perform_all-Refines heap (c ∷ cs) q limit none r s h = r
perform_all-Refines heap (c ∷ cs) q limit (some b) r s h =
    let one = perform-Refines heap c b r.0 s.0 (omega (arith, r.2, h)) in
    let here =
      widen heap (b.write_pos + adds c) (limit + adds c) _ (on_queue c q) (perform heap c b)
        (omega (arith, r.2)) (ap (on_queue c) r.1) one in
    widen heap (limit + adds c + total cs) (limit + total (c ∷ cs)) _ _
      (perform_all heap (c ∷ cs) b) (omega arith) refl
      (perform_all-Refines heap cs (on_queue c q) (limit + adds c) (perform heap c b) here s.1
        (omega (arith, h)))

from_last :
    (heap : Heap) (limit : ℕ) (q : Bytes) (o : Option IoBuffer)
    → heap.has_memory ≡ true
    → Refines heap limit q o
    → (last : IoBuffer) × (o ≡ some last) × (readable_span last ≡ q)
from_last heap limit q none m r = ground (arith, m, r)
from_last heap limit q (some b) m r = (b, refl, r.1)

from_first :
    (heap : Heap) (cs : List Call)
    → heap.has_memory ≡ true
    → All IsSmall cs
    → total cs < 2 ^ 64
    → (o : Option IoBuffer) → Fresh heap o
    → (first last : IoBuffer) × (o ≡ some first)
      × (perform_all heap cs first ≡ some last)
      × (readable_span last ≡ all_on_queue cs [])
from_first heap cs m s h none f = absurd (ground (arith, m, f))
from_first heap cs m s h (some b) f =
    let (last, e, bytes) =
      from_last heap (0 + total cs) (all_on_queue cs []) (perform_all heap cs b) m (
        perform_all-Refines heap cs [] 0 (some b) (f.0, f.1, omega (arith, f.2)) s
          (omega (arith, h))) in
    (b, last, refl, e, bytes)

-- With memory on the heap, a capacity and reserved capacities below 2^64, and calls that together add
-- fewer than 2^64 bytes: a new buffer is made, none of the calls throws, and the readable bytes at the
-- end are those of a queue of bytes after the same calls.
pub perform_all-on_queue :
    (heap : Heap) (capacity : ℕ) (cs : List Call)
    → heap.has_memory ≡ true
    → capacity < 2 ^ 64
    → All IsSmall cs
    → total cs < 2 ^ 64
    → (first last : IoBuffer) × (new_buffer heap capacity ≡ some first)
      × (perform_all heap cs first ≡ some last)
      × (readable_span last ≡ all_on_queue cs [])
perform_all-on_queue heap capacity cs m k s h =
    from_first heap cs m s h (new_buffer heap capacity) (new_buffer_lem heap capacity k)
