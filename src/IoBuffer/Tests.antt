-- ===== src/IoBuffer/Tests.antt =====
-- The theorems on the buffer at concrete inputs.
use visage_dvachevsky_tempre.Base.{
  ◌+◌, ◌-◌, ◌^◌, ◌<◌, ◌≡◌, refl, true, some, List, [], ◌∷◌, codes, arith,
}
use visage_dvachevsky_tempre.IoBuffer.{IoBuffer, Heap, new_buffer, readable_span, writable_span}
use visage_dvachevsky_tempre.IoBuffer.Room.{IsValid}
use visage_dvachevsky_tempre.IoBuffer.Laws.{writable_span_overflow}
use visage_dvachevsky_tempre.IoBuffer.Script.{
  Call, append_call, consume_call, reserve_call, perform_all, perform_all-on_queue, all_on_queue,
}

abbrev test_heap : Heap
test_heap = record { has_memory = true; junk = 7 }

abbrev calls : List Call
calls =
    append_call (codes "hello ")
    ∷ consume_call 2
    ∷ reserve_call 100
    ∷ append_call (codes "world")
    ∷ []

perform_all-on_queue_example :
    (first last : IoBuffer) × (new_buffer test_heap 8 ≡ some first)
    × (perform_all test_heap calls first ≡ some last)
    × (readable_span last ≡ all_on_queue calls [])
perform_all-on_queue_example =
    perform_all-on_queue test_heap 8 calls refl (omega arith) (tt, (tt, (omega arith, (tt, tt))))
      (omega arith)

abbrev half_full : IoBuffer
half_full = record { data' = codes "abcd"; capacity = 4; read_pos = 0; write_pos = 2 }

half_full-IsValid : IsValid half_full
half_full-IsValid = record {
  allocated = refl;
  ordered = omega arith;
  inside = omega arith;
  addressed = omega arith;
}

writable_span_overflow_example :
    (writable_span test_heap (2 ^ 64 - 2) half_full ≡ some (half_full, 2)) × (4 < 2 + (2 ^ 64 - 2))
writable_span_overflow_example =
    writable_span_overflow test_heap half_full half_full-IsValid (omega arith)
