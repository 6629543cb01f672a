-- ===== src/IoBuffer/Laws.antt =====
-- `io_buffer` as a queue of bytes: what each operation does to the readable bytes.
use visage_dvachevsky_tempre.Base.{
  ℕ, ◌+◌, ◌-◌, ◌%◌, ◌^◌, ◌≤◌, ◌<◌, ◌≡◌, min, refl, sym, ◌∙◌, ap, false, Option, none, some, [],
  ◌++◌, Bytes, length, take, drop, arith, length-take, length-replicate, drop-take, drop-append_le,
  drop-drop, Bool-cases, inl, inr, leb, drop_all, append-nil,
}
use native.Mathlib.Nat.{mod-eq_of_lt}
use visage_dvachevsky_tempre.Memory.{write_at, length-write_at, take-write_at}
use visage_dvachevsky_tempre.IoBuffer.{
  IoBuffer, Heap, size, readable_span, new_buffer, reallocate, ensure_writable, put, append,
  writable_span, commit, consume, clear, reserve,
}
use visage_dvachevsky_tempre.IoBuffer.Room.{
  IsValid, Moved, Roomy, SameBytes, compact_if_needed-SameBytes, ensure_writable-Roomy,
  length-readable_span, readable-written, reallocate-Moved,
}

-- The bytes have the text behind them, or there was no memory.
abbrev pub Appended : Heap → Bytes → IoBuffer → Option IoBuffer → Type 0
Appended heap text b none = heap.has_memory ≡ false
Appended heap text b (some c) =
    IsValid c
    × (readable_span c ≡ readable_span b ++ text)
    × (c.write_pos ≤ b.write_pos + length text)

put_lem :
    (text : Bytes) (b : IoBuffer)
    → IsValid b
    → b.write_pos + length text ≤ b.capacity
    → IsValid (put text b)
      × (readable_span (put text b) ≡ readable_span b ++ text)
      × ((put text b).write_pos ≤ b.write_pos + length text)
put_lem text b v h =
    let w : ℕ = b.write_pos + length text in
    let whole : w % 2 ^ 64 ≡ w = mod-eq_of_lt (omega (arith, h, v.addressed)) in
    let m : Bytes = write_at b.write_pos text b.data' in
    let long : length m ≡ length b.data' =
      length-write_at b.write_pos text b.data' (omega (arith, v.allocated)) in
    let front : b.read_pos ≤ length (take b.write_pos b.data') =
      omega (arith, length-take b.write_pos b.data', v.allocated, v.ordered, v.inside) in
    let bytes : take (w - b.read_pos) (drop b.read_pos m) ≡ readable_span b ++ text =
      drop-take b.read_pos w m
      ∙ ap (drop b.read_pos) (take-write_at b.write_pos text b.data' (omega (arith, v.allocated)))
      ∙ drop-append_le b.read_pos (take b.write_pos b.data') text front
      ∙ ap (λ s. s ++ text) (sym (readable-written b v)) in
    ground (arith, whole, long, bytes)

append_after :
    (heap : Heap) (text : Bytes) (b : IoBuffer) (o : Option IoBuffer)
    → Roomy heap (length text) b o
    → Appended heap text b (elim o [ none ↦ none | some c ↦ some (put text c) ])
append_after heap text b none r = r
append_after heap text b (some c) r =
    let (valid, same, less) = put_lem text c r.0.0 r.1 in
    (valid, same ∙ ap (λ s. s ++ text) r.0.1, omega (arith, less, r.0))

drop-min : (n k : ℕ) (s : Bytes) → length s ≡ k → drop (min n k) s ≡ drop n s
drop-min n k s e = elim (Bool-cases (leb n k)) [
  | inl h ↦ ap (λ i. drop i s) (ground (arith, h))
  | inr h ↦ drop_all (min n k) s (ground (arith, h)) ∙ sym (drop_all n s (ground (arith, h)))
]

consumed :
    (bytes : ℕ) (b : IoBuffer)
    → IsValid b
    → take
        (b.write_pos - (b.read_pos + min bytes (size b)))
        (drop (b.read_pos + min bytes (size b)) b.data')
      ≡ drop bytes (readable_span b)
consumed bytes b v =
    let k : ℕ = min bytes (size b) in
    drop-take (b.read_pos + k) b.write_pos b.data'
    ∙ drop-drop b.read_pos k (take b.write_pos b.data')
    ∙ ap (drop k) (sym (readable-written b v))
    ∙ drop-min bytes (size b) (readable_span b) (length-readable_span b v)

-- `append` puts the bytes behind the readable ones, for sizes that a 64-bit position holds; it throws
-- only if the heap has no memory.
pub append_lem :
    (heap : Heap) (text : Bytes) (b : IoBuffer)
    → IsValid b
    → b.write_pos + length text < 2 ^ 64
    → Appended heap text b (append heap text b)
unfolding append
append_lem heap text b v h =
    let whole : (b.write_pos + length text) % 2 ^ 64 ≡ b.write_pos + length text = mod-eq_of_lt h in
    ground (
      arith,
      whole,
      put_lem text b v,
      append_after heap text b (ensure_writable heap (length text) b)
          (ensure_writable-Roomy heap (length text) b v h),
    )

-- `consume` takes that many bytes off the front of the readable ones, or all of them.
pub consume_lem :
    (bytes : ℕ) (b : IoBuffer)
    → IsValid b
    → IsValid (consume bytes b)
      × (readable_span (consume bytes b) ≡ drop bytes (readable_span b))
      × ((consume bytes b).write_pos ≤ b.write_pos)
unfolding consume
consume_lem bytes b v =
    let c : IoBuffer = record b { read_pos = b.read_pos + min bytes (size b) } in
    let valid : IsValid c = ground arith in
    ground (arith, valid, compact_if_needed-SameBytes c valid, consumed bytes b v)

-- The caller of `writable_span` fills the span and commits it.
unfoldable pub fill_span : Bytes → IoBuffer × ℕ → IoBuffer
fill_span text (c, at') = commit (length text) (record c { data' = write_at at' text c.data' })

-- The span has room, and once it is filled the text is behind the readable bytes.
abbrev pub SpanOk : Heap → Bytes → IoBuffer → Option (IoBuffer × ℕ) → Type 0
SpanOk heap text b none = heap.has_memory ≡ false
SpanOk heap text b (some (c, at')) =
    SameBytes b c
    × (at' + length text ≤ c.capacity)
    × Appended heap text b (some (fill_span text (c, at')))

span_after :
    (heap : Heap) (text : Bytes) (b : IoBuffer) (o : Option IoBuffer)
    → Roomy heap (length text) b o
    → SpanOk heap text b (elim o [ none ↦ none | some c ↦ some (c, c.write_pos) ])
unfolding fill_span commit
span_after heap text b none r = r
span_after heap text b (some c) r = (r.0, r.1, append_after heap text b (some c) r)

wraps : (w : ℕ) → w < 2 ^ 64 → (w + (2 ^ 64 - w)) % 2 ^ 64 ≡ 0
wraps w h = let all : w + (2 ^ 64 - w) ≡ 2 ^ 64 = omega arith in ap (λ n. n % 2 ^ 64) all

-- The addition in front of the test for room wraps: a request whose size reaches 2^64 with the write
-- position gets a span that ends outside the allocation.
pub writable_span_overflow :
    (heap : Heap) (b : IoBuffer)
    → IsValid b
    → 0 < b.write_pos
    → (writable_span heap (2 ^ 64 - b.write_pos) b ≡ some (b, b.write_pos))
      × (b.capacity < b.write_pos + (2 ^ 64 - b.write_pos))
unfolding writable_span
writable_span_overflow heap b v p =
    ground (arith, wraps b.write_pos (omega (arith, v.inside, v.addressed)))

-- `writable_span` throws only if the heap has no memory. A span that it returns lies in the
-- allocation, with the readable bytes kept; filled and committed, it is behind them.
pub writable_span_lem :
    (heap : Heap) (text : Bytes) (b : IoBuffer)
    → IsValid b
    → b.write_pos + length text < 2 ^ 64
    → SpanOk heap text b (writable_span heap (length text) b)
unfolding writable_span
writable_span_lem heap text b v h =
    let whole : (b.write_pos + length text) % 2 ^ 64 ≡ b.write_pos + length text = mod-eq_of_lt h in
    let kept : SameBytes b b = (v, refl, omega arith) in
    ground (
      arith,
      whole,
      span_after heap text b (some b),
      kept,
      span_after heap text b (ensure_writable heap (length text) b)
          (ensure_writable-Roomy heap (length text) b v h),
    )

-- An empty buffer, or there was no memory.
abbrev pub Fresh : Heap → Option IoBuffer → Type 0
Fresh heap none = heap.has_memory ≡ false
Fresh heap (some b) = IsValid b × (readable_span b ≡ []) × (b.write_pos ≡ 0)

pub new_buffer_lem : (heap : Heap) (n : ℕ) → n < 2 ^ 64 → Fresh heap (new_buffer heap n)
unfolding new_buffer
new_buffer_lem heap n h =
    ground (arith, length-replicate {A = ℕ} n heap.junk, length-replicate {A = ℕ} 64 heap.junk)

pub clear_lem :
    (b : IoBuffer)
    → IsValid b
    → IsValid (clear b) × (readable_span (clear b) ≡ []) × ((clear b).write_pos ≡ 0)
unfolding clear
clear_lem b v = ground arith

reserve_after :
    (heap : Heap) (n : ℕ) (b : IoBuffer) (o : Option IoBuffer)
    → Moved heap n b o
    → Appended heap [] b o
reserve_after heap n b none m = m
reserve_after heap n b (some c) m =
    (m.0.0, m.0.1 ∙ sym (append-nil (readable_span b)), omega (arith, m.0))

pub reserve_lem :
    (heap : Heap) (n : ℕ) (b : IoBuffer)
    → IsValid b
    → n < 2 ^ 64
    → Appended heap [] b (reserve heap n b)
unfolding reserve
reserve_lem heap n b v h =
    let moved = reallocate-Moved heap n b v in
    ground
      (arith, moved, append-nil (readable_span b), reserve_after heap n b (reallocate heap n b))
