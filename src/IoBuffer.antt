-- ===== src/IoBuffer.antt =====
-- `class io_buffer` of core/include/katana/core/io_buffer.hpp and core/src/io_buffer.cpp: an
-- allocation with a read and a write position. An operation that throws `bad_alloc` returns nothing;
-- whether the heap has memory and what fresh memory holds are arguments.
pub mod Room
pub mod Laws
pub mod Script
mod Tests
use visage_dvachevsky_tempre.Base.{
  ℕ, ◌+◌, ◌-◌, ◌*◌, ◌/◌, ◌%◌, ◌^◌, min, max, Bool, ◌&&◌, ◌||◌, Option, none, some, List, [], ◌∷◌,
  ◌++◌, Bytes, length, take, drop, replicate, ltb, leb, ◌==◌, if◌then◌else◌,
}
use visage_dvachevsky_tempre.Memory.{move_to_front, write_at}

-- `data_` is the whole allocation.
pub record IoBuffer : Type 0 where
  pub data' : Bytes
  pub capacity : ℕ
  pub read_pos : ℕ
  pub write_pos : ℕ

-- The heap: whether it has memory, and what fresh memory holds.
pub record Heap : Type 0 where
  pub has_memory : Bool
  pub junk : ℕ

abbrev pub compact_threshold : ℕ
compact_threshold = 4096

abbrev pub initial_capacity : ℕ
initial_capacity = 64

-- `SIZE_MAX`
abbrev pub size_max : ℕ
size_max = 2 ^ 64 - 1

abbrev pub size : IoBuffer → ℕ
size b = b.write_pos - b.read_pos

abbrev pub allocate_raw : Heap → ℕ → Option Bytes
allocate_raw heap n = if heap.has_memory then some (replicate n heap.junk) else none

-- `io_buffer(size_t)`; the default constructor asks for `initial_capacity`.
unfoldable pub new_buffer : Heap → ℕ → Option IoBuffer
new_buffer heap capacity =
    let n = if capacity == 0 then initial_capacity else capacity in
    elim (allocate_raw heap n) [
      | none ↦ none
      | some m ↦ some (record { data' = m; capacity = n; read_pos = 0; write_pos = 0 })
    ]

-- `readable_span`
abbrev pub readable_span : IoBuffer → Bytes
readable_span b = take (size b) (drop b.read_pos b.data')

unfoldable pub compact_if_needed : IoBuffer → IoBuffer
compact_if_needed b =
    if leb compact_threshold b.read_pos && ltb (size b) b.read_pos
    then record b {
      data' = if ltb 0 (size b) then move_to_front b.read_pos (size b) b.data' else b.data';
      read_pos = 0;
      write_pos = size b;
    }
    else b

-- A new allocation with the unread bytes at its front.
unfoldable pub reallocate : Heap → ℕ → IoBuffer → Option IoBuffer
reallocate heap n b = elim (allocate_raw heap n) [
  | none ↦ none
  | some m ↦ some (record {
    data' = if ltb 0 (size b) then write_at 0 (readable_span b) m else m;
    capacity = n;
    read_pos = 0;
    write_pos = size b;
  })
]

abbrev available : IoBuffer → ℕ
available b = if ltb b.write_pos b.capacity then b.capacity - b.write_pos else 0

-- The capacity that `ensure_writable` asks for, or none where it throws.
unfoldable pub grown_capacity : ℕ → IoBuffer → Option ℕ
grown_capacity bytes b =
    let doubled : ℕ =
      if ltb (size_max / 2) b.capacity
      then size_max
      else if ltb 0 b.capacity
      then b.capacity * 2
      else initial_capacity in
    let required = (b.write_pos + bytes) % 2 ^ 64 in
    if ltb required b.write_pos || ltb required bytes then none else some (max doubled required)

unfoldable pub ensure_writable : Heap → ℕ → IoBuffer → Option IoBuffer
ensure_writable heap bytes b =
    let c = compact_if_needed b in
    if leb bytes (available b)
    then some b
    else if leb bytes (available c)
    then some c
    else elim (grown_capacity bytes c) [ none ↦ none | some n ↦ reallocate heap n c ]

-- The `memcpy` behind the input and the move of the write position.
abbrev pub put : Bytes → IoBuffer → IoBuffer
put text b = record b {
  data' = write_at b.write_pos text b.data';
  write_pos = (b.write_pos + length text) % 2 ^ 64;
}

unfoldable pub append : Heap → Bytes → IoBuffer → Option IoBuffer
append heap text b =
    if leb ((b.write_pos + length text) % 2 ^ 64) b.capacity
    then some (put text b)
    else elim (ensure_writable heap (length text) b) [ none ↦ none | some c ↦ some (put text c) ]

-- The span is `count` bytes from the position that is returned on.
unfoldable pub writable_span : Heap → ℕ → IoBuffer → Option (IoBuffer × ℕ)
writable_span heap count b =
    if leb ((b.write_pos + count) % 2 ^ 64) b.capacity
    then some (b, b.write_pos)
    else elim (ensure_writable heap count b) [ none ↦ none | some c ↦ some (c, c.write_pos) ]

unfoldable pub commit : ℕ → IoBuffer → IoBuffer
commit bytes b = record b { write_pos = (b.write_pos + bytes) % 2 ^ 64 }

unfoldable pub consume : ℕ → IoBuffer → IoBuffer
consume bytes b =
    let c : IoBuffer = record b { read_pos = b.read_pos + min bytes (size b) } in
    if c.read_pos == c.write_pos
    then record c { read_pos = 0; write_pos = 0 }
    else compact_if_needed c

unfoldable pub clear : IoBuffer → IoBuffer
clear b = record b { read_pos = 0; write_pos = 0 }

unfoldable pub reserve : Heap → ℕ → IoBuffer → Option IoBuffer
reserve heap new_capacity b =
    if ltb b.capacity new_capacity then reallocate heap new_capacity b else some b
