-- ===== src/Arena.antt =====
-- `class monotonic_arena` of core/include/katana/core/arena.hpp and core/src/arena.cpp: the blocks that
-- are in use, the first `num_blocks_` of the array. Where the system puts a new block, or that it has
-- no memory, is an argument. The counters of syscall_metrics are left out.
pub mod Laws
pub mod Search
pub mod Allocate
mod Tests
use Prim.Native.Nat.{bit_and}
use visage_dvachevsky_tempre.Base.{
  ℕ, zero, suc, ◌+◌, ◌-◌, ◌*◌, ◌/◌, ◌%◌, ◌^◌, max, Bool, true, false, not, ◌&&◌, ◌||◌, Option, none,
  some, List, [], ◌∷◌, ◌++◌, map, length, get_elem?, modify, ltb, leb, ◌==◌, if◌then◌else◌,
}

-- `block`; a block whose `data` is null is none of these.
pub record Block : Type 0 where
  pub address : ℕ
  pub size : ℕ
  pub used : ℕ

pub record Arena : Type 0 where
  pub blocks : List Block
  pub current_block_index : ℕ
  pub block_size : ℕ
  pub bytes_allocated : ℕ
  pub total_capacity : ℕ

abbrev pub max_alignment : ℕ
max_alignment = 64

abbrev pub max_blocks : ℕ
max_blocks = 32

abbrev pub new_arena : ℕ → Arena
new_arena block_size = record {
  blocks = [];
  current_block_index = 0;
  block_size = block_size;
  bytes_allocated = 0;
  total_capacity = 0;
}

-- The alignment is a power of two, so masking its low bits off rounds down to a multiple of it.
unfoldable pub align_up : ℕ → ℕ → ℕ
align_up n alignment = (n + alignment - 1) / alignment * alignment

-- The address that a block gives the bytes, and what it has used then.
unfoldable pub place_in : ℕ → ℕ → Block → Option (ℕ × ℕ)
place_in bytes alignment b =
    let current = b.address + b.used in
    let aligned = align_up current alignment in
    let padding = aligned - current in
    if leb b.size b.used
    then none
    else if leb ((b.used + padding + bytes) % 2 ^ 64) b.size
    then some (aligned, (b.used + padding + bytes) % 2 ^ 64)
    else none

abbrev pub with_used : ℕ → Block → Block
with_used used b = record b { used = used }

abbrev pub take_place : ℕ → ℕ → ℕ → Arena → Arena
take_place bytes index used a = record a {
  blocks = modify (with_used used) index a.blocks;
  current_block_index = index;
  bytes_allocated = a.bytes_allocated + bytes;
}

-- The scan of the blocks, from the one with an index on.
unfoldable pub scan : ℕ → ℕ → ℕ → List Block → Option (ℕ × (ℕ × ℕ))
scan bytes alignment index [] = none
scan bytes alignment index (b ∷ bs) =
    let later = scan bytes alignment (suc index) bs in
    elim (place_in bytes alignment b) [ none ↦ later | some place ↦ some (index, place) ]

abbrev pub in_current : ℕ → ℕ → Arena → Option (ℕ × (ℕ × ℕ))
in_current bytes alignment a = elim (get_elem? a.blocks a.current_block_index) [
  | none ↦ none
  | some b ↦ elim (place_in bytes alignment b) [
    | none ↦ none
    | some place ↦ some (a.current_block_index, place)
  ]
]

-- `allocate_new_block`
unfoldable pub allocate_new_block : Option ℕ → ℕ → Arena → Option Arena
allocate_new_block fresh min_size a =
    if leb max_blocks (length a.blocks) then none else elim fresh [
      | none ↦ none
      | some address ↦ some (record a {
        blocks = a.blocks ++ record { address = address; size = min_size; used = 0 } ∷ [];
        current_block_index = length a.blocks;
        total_capacity = a.total_capacity + min_size;
      })
    ]

-- The bytes in the last block, that is new.
abbrev pub in_new_block : ℕ → ℕ → ℕ → Arena → Option ℕ × Arena
in_new_block bytes alignment index a = elim (get_elem? a.blocks index) [
  | none ↦ (none, a)
  | some b ↦
      let aligned = align_up b.address alignment in
      let needed = (aligned - b.address + bytes) % 2 ^ 64 in
      if ltb b.size needed then (none, a) else (some aligned, take_place bytes index needed a)
]

abbrev pub grow : Option ℕ → ℕ → ℕ → Arena → Option ℕ × Arena
grow fresh bytes alignment a =
    elim (allocate_new_block fresh (max a.block_size ((bytes + max_alignment) % 2 ^ 64)) a) [
      | none ↦ (none, a)
      | some g ↦ in_new_block bytes alignment (length a.blocks) g
    ]

-- A block that is there, or a new one.
abbrev pub choose :
    Option ℕ → ℕ → ℕ → Option (ℕ × (ℕ × ℕ)) → Option (ℕ × (ℕ × ℕ)) → Arena → Option ℕ × Arena
choose fresh bytes alignment (some (index, (place, used))) found a =
    (some place, take_place bytes index used a)
choose fresh bytes alignment none (some (index, (place, used))) a =
    (some place, take_place bytes index used a)
choose fresh bytes alignment none none a = grow fresh bytes alignment a

abbrev pub bad_alignment : ℕ → Bool
bad_alignment alignment =
    alignment == 0 || not (bit_and alignment (alignment - 1) == 0) || ltb max_alignment alignment

unfoldable pub allocate : Option ℕ → ℕ → ℕ → Arena → Option ℕ × Arena
allocate fresh bytes alignment a =
    if bytes == 0 || bad_alignment alignment
    then (none, a)
    else choose fresh bytes alignment (in_current bytes alignment a)
        (scan bytes alignment 0 a.blocks) a

unfoldable pub reset_arena : Arena → Arena
reset_arena a = record a {
  blocks = map (with_used 0) a.blocks;
  current_block_index = 0;
  bytes_allocated = 0;
}
