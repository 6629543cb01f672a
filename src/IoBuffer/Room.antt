-- ===== src/IoBuffer/Room.antt =====
-- What holds of an `io_buffer`, and the operations that make room in it: `compact_if_needed` and
-- `ensure_writable`.
use visage_dvachevsky_tempre.Base.{
  ℕ, ◌+◌, ◌%◌, ◌^◌, ◌≤◌, ◌<◌, ◌≡◌, ◌∙◌, false, Option, none, some, Bytes, length, take, drop,
  replicate, arith, length-take, length-drop, length-replicate, drop-take, Option-cases, inl, inr,
}
use native.Mathlib.Nat.{mod-eq_of_lt}
use visage_dvachevsky_tempre.Memory.{
  length-move_to_front, take-move_to_front, length-write_at, take-write_at,
}
use visage_dvachevsky_tempre.IoBuffer.{
  IoBuffer, Heap, size, readable_span, compact_if_needed, reallocate, grown_capacity,
  ensure_writable,
}

-- The positions lie in the allocation, which has the size that is kept.
pub record IsValid (b : IoBuffer) : Type 0 where
  pub allocated : length b.data' ≡ b.capacity
  pub ordered : b.read_pos ≤ b.write_pos
  pub inside : b.write_pos ≤ b.capacity
  pub addressed : b.capacity < 2 ^ 64

-- The readable bytes, as the written bytes without those read.
pub readable-written :
    (b : IoBuffer) → IsValid b → readable_span b ≡ drop b.read_pos (take b.write_pos b.data')
readable-written b v = drop-take b.read_pos b.write_pos b.data'

pub length-readable_span : (b : IoBuffer) → IsValid b → length (readable_span b) ≡ size b
length-readable_span b v = omega (
  arith,
  length-take (size b) (drop b.read_pos b.data'),
  length-drop b.read_pos b.data',
  v.allocated,
  v.ordered,
  v.inside,
)

-- The bytes stay readable, and the write position does not go up.
abbrev pub SameBytes : IoBuffer → IoBuffer → Type 0
SameBytes b c = IsValid c × (readable_span c ≡ readable_span b) × (c.write_pos ≤ b.write_pos)

pub compact_if_needed-SameBytes : (b : IoBuffer) → IsValid b → SameBytes b (compact_if_needed b)
unfolding compact_if_needed
compact_if_needed-SameBytes b v = ground (
  arith,
  length-move_to_front b.read_pos (size b) b.data',
  take-move_to_front b.read_pos (size b) b.data',
)

-- What a new allocation of `n` bytes hands over, or throws without memory.
abbrev pub Moved : Heap → ℕ → IoBuffer → Option IoBuffer → Type 0
Moved heap n b none = heap.has_memory ≡ false
Moved heap n b (some c) = SameBytes b c × (c.capacity ≡ n) × (c.write_pos ≡ size b)

pub reallocate-Moved :
    (heap : Heap) (n : ℕ) (b : IoBuffer)
    → IsValid b
    → size b ≤ n
    → n < 2 ^ 64
    → Moved heap n b (reallocate heap n b)
unfolding reallocate
reallocate-Moved heap n b v h k =
    let text : Bytes = readable_span b in
    let m : Bytes = replicate n heap.junk in
    let fits : 0 + length text ≤ length m =
      omega (arith, length-readable_span b v, length-replicate {A = ℕ} n heap.junk) in
    ground (
      arith,
      length-readable_span b v,
      length-replicate {A = ℕ} n heap.junk,
      length-write_at 0 text m fits,
      take-write_at 0 text m fits,
    )

-- What an operation that asks for room hands over, or throws without memory.
abbrev pub Roomy : Heap → ℕ → IoBuffer → Option IoBuffer → Type 0
Roomy heap bytes b none = heap.has_memory ≡ false
Roomy heap bytes b (some c) = SameBytes b c × (c.write_pos + bytes ≤ c.capacity)

grown_capacity-bounds :
    (bytes : ℕ) (b : IoBuffer)
    → IsValid b
    → b.write_pos + bytes < 2 ^ 64
    → elim (grown_capacity bytes b) as (λ _. Type 0) [
      | none ↦ ⊥
      | some n ↦ (b.write_pos + bytes ≤ n) × (n < 2 ^ 64)
    ]
unfolding grown_capacity
grown_capacity-bounds bytes b v h =
    let whole : (b.write_pos + bytes) % 2 ^ 64 ≡ b.write_pos + bytes = mod-eq_of_lt h in
    ground (arith, whole)

compact_if_needed-write_pos : (b : IoBuffer) → (compact_if_needed b).write_pos ≤ b.write_pos
unfolding compact_if_needed
compact_if_needed-write_pos b = ground arith

Moved-Roomy :
    (heap : Heap) (bytes n : ℕ) (b c : IoBuffer)
    → SameBytes b c
    → c.write_pos + bytes ≤ n
    → (o : Option IoBuffer) → Moved heap n c o
    → Roomy heap bytes b o
Moved-Roomy heap bytes n b c s h none m = m
Moved-Roomy heap bytes n b c s h (some d) m =
    ((m.0.0, m.0.1 ∙ s.1, omega (arith, m.0, s)), omega (arith, m.1, h))

pub ensure_writable-Roomy :
    (heap : Heap) (bytes : ℕ) (b : IoBuffer)
    → IsValid b
    → b.write_pos + bytes < 2 ^ 64
    → Roomy heap bytes b (ensure_writable heap bytes b)
unfolding ensure_writable
ensure_writable-Roomy heap bytes b v h =
    let c : IoBuffer = compact_if_needed b in
    let same : SameBytes b c = compact_if_needed-SameBytes b v in
    let less : c.write_pos ≤ b.write_pos = compact_if_needed-write_pos b in
    let bounds = grown_capacity-bounds bytes c same.0 (omega arith) in
    elim (Option-cases (grown_capacity bytes c)) [
      | inl e ↦ ground (arith, e, bounds)
      | inr (n, e) ↦
          let room : Roomy heap bytes b (reallocate heap n c) =
            Moved-Roomy heap bytes n b c same (ground (arith, e, bounds)) (reallocate heap n c) (
              reallocate-Moved heap n c same.0 (ground (arith, e, bounds, same))
                (ground (arith, e, bounds))) in
          ground (arith, e, same, less, room)
    ]
