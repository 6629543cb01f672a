-- ===== src/Http/Message/Tests.antt =====
-- The theorems on the text of a response at concrete inputs, and those on methods.
use visage_dvachevsky_tempre.Base.{
  ◌≡◌, ◌+◌, ◌^◌, ◌<◌, refl, true, false, some, [], ◌++◌, Bytes, codes, length, arith,
}
use visage_dvachevsky_tempre.Digits.{from_chars, to_chars, write_digits, digit_char}
use visage_dvachevsky_tempre.Http.Method.{
  put, parse_method, method_to_string, parse_method-method_to_string,
}
use visage_dvachevsky_tempre.Http.Headers.{contains_known, bytes_text, reset_storage, iterate}
use visage_dvachevsky_tempre.Http.Headers.Store.{find_slot, find_chunks, find_first, blank_slots}
use visage_dvachevsky_tempre.Http.Message.{HeaderEnv, Response, new_response, content_length}
use mathlib.Core.List.{flatten}
use visage_dvachevsky_tempre.IoBuffer.{IoBuffer, Heap}
use visage_dvachevsky_tempre.IoBuffer.Room.{IsValid}
use visage_dvachevsky_tempre.IoBuffer.Laws.{Appended}
use visage_dvachevsky_tempre.Http.Message.Buffered.{
  serialize_into_buffer, serialize_into_buffer-Appended,
}
use visage_dvachevsky_tempre.Http.Message.Serialize.{
  append_headers, crlf, header_text, serialize_chunked, serialize_into, serialize_head_into,
}
use visage_dvachevsky_tempre.Http.Message.Framing.{
  IsChunked, chunked_head, serialize_chunked-IsChunked, serialize_into-framed,
}

abbrev test_env : HeaderEnv
test_env = record {
  strings = true;
  chunks = true;
  string_to_field = λ _. 0;
  field_to_string = λ _. [];
}

abbrev greeting : Response
greeting = record new_response { reason = codes "OK"; body = codes "hello world" }

serialize_chunked-IsChunked_example :
    (text : Bytes) × (serialize_chunked test_env 4 greeting
      ≡ chunked_head test_env greeting ++ text)
    × IsChunked 4 (codes "hello world") text
serialize_chunked-IsChunked_example =
    serialize_chunked-IsChunked test_env 4 greeting (omega arith) (omega arith)

no_length : contains_known content_length (reset_storage {T = Bytes}) ≡ false
unfolding contains_known reset_storage find_slot find_chunks find_first blank_slots
no_length = refl

serialize_into-framed_example :
    (before digits : Bytes) × (serialize_head_into test_env greeting
      ≡ before ++ header_text (codes "Content-Length") digits ++ crlf)
    × (serialize_into test_env greeting
        ≡ serialize_head_into test_env greeting ++ codes "hello world")
    × (from_chars 10 digits ≡ some (11, length digits))
serialize_into-framed_example = serialize_into-framed test_env greeting refl no_length (omega arith)

parse_method-method_to_string_example : parse_method (method_to_string put) ≡ put
parse_method-method_to_string_example = parse_method-method_to_string put

abbrev test_heap : Heap
test_heap = record { has_memory = true; junk = 0 }

abbrev small_buffer : IoBuffer
small_buffer = record { data' = codes "abcd"; capacity = 4; read_pos = 1; write_pos = 3 }

small_buffer-IsValid : IsValid small_buffer
small_buffer-IsValid = record {
  allocated = refl;
  ordered = omega arith;
  inside = omega arith;
  addressed = omega arith;
}

fits : 3 + length (serialize_into test_env greeting) < 2 ^ 64
unfolding serialize_into append_headers iterate contains_known reset_storage find_slot find_chunks
    find_first blank_slots to_chars write_digits digit_char flatten
fits = omega arith

serialize_into_buffer-Appended_example :
    Appended test_heap
      (serialize_into test_env greeting)
      small_buffer
      (serialize_into_buffer test_heap test_env greeting small_buffer)
serialize_into_buffer-Appended_example =
    serialize_into_buffer-Appended test_heap test_env greeting small_buffer small_buffer-IsValid
      (omega arith) fits
