-- ===== src/Arena/Tests.antt =====
-- The theorem on the arena at a concrete input.
use visage_dvachevsky_tempre.Base.{some, [], arith}
use visage_dvachevsky_tempre.Arena.{new_arena, allocate}
use visage_dvachevsky_tempre.Arena.Laws.{IsArena}
use visage_dvachevsky_tempre.Arena.Allocate.{Allocated, allocate-Allocated}

empty-IsArena : IsArena [] (new_arena 65536)
empty-IsArena = record {
  sound = λ i b q. absurd (ground (arith, q));
  apart = λ i j b c n q r. absurd (ground (arith, q));
  held = λ i r q. absurd (ground (arith, q));
  disjoint = λ i j r s n q p. absurd (ground (arith, q));
}

allocate-Allocated_example : Allocated 10 8 [] (allocate (some 4096) 10 8 (new_arena 65536))
allocate-Allocated_example =
    allocate-Allocated (some 4096) 10 8 [] (new_arena 65536) empty-IsArena (omega arith)
      (omega arith) (λ i b q. absurd (ground (arith, q)))
