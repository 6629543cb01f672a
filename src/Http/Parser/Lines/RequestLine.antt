-- ===== src/Http/Parser/Lines/RequestLine.antt =====
-- What `process_request_line` accepts: exactly `METHOD SP URI SP HTTP/1.1`.
use visage_dvachevsky_tempre.Base.{
  ℕ, ◌+◌, ◌≤◌, ◌≡◌, ◌≢◌, refl, sym, ◌∙◌, ap, false, some, [], ◌∷◌, ◌++◌, Bytes, codes, bytes_eq→eq,
  bytes_eq_refl, length, take, drop, arith, Option-cases, inl, inr, take-append_length, length-take,
  drop-drop, drop-append_cons,
}
use visage_dvachevsky_tempre.Http.Method.{
  Method, parse_method, method_to_string, parse_method-method_to_string,
  method_to_string-parse_method, ok,
}
use visage_dvachevsky_tempre.Http.Parser.{in_buffer, Parser, max_uri_length}
use visage_dvachevsky_tempre.Http.Parser.Text.{slice, find_byte, contains_invalid_uri_char}
use visage_dvachevsky_tempre.Http.Parser.Text.Search.{Lacks, find_byte-append, find_byte_split}
use visage_dvachevsky_tempre.Http.Parser.Lines.{
  last_byte, has_bad_edges, process_uri, process_request_line,
}

-- The line that a client writes.
abbrev pub request_line_text : Method → Bytes → Bytes
request_line_text m uri = method_to_string m ++ b' ' ∷ (uri ++ b' ' ∷ codes "HTTP/1.1")

valid_uri-Lacks : (uri : Bytes) → contains_invalid_uri_char uri ≡ false → Lacks b' ' uri
unfolding contains_invalid_uri_char
valid_uri-Lacks [] h = tt
valid_uri-Lacks (c ∷ r) h = (ground arith, valid_uri-Lacks r (ground arith))

method-Lacks : (m : Method) → Lacks b' ' (method_to_string m)
unfolding method_to_string
method-Lacks Method.get = omega arith
method-Lacks _ = omega arith

last_byte-append : (c d : ℕ) (l r : Bytes) → last_byte c (l ++ d ∷ r) ≡ last_byte d r
unfolding last_byte
last_byte-append c d [] r = refl
last_byte-append c d (b ∷ l) r = last_byte-append b d l r

good_edges : (m : Method) (uri : Bytes) → has_bad_edges (request_line_text m uri) ≡ false
unfolding has_bad_edges method_to_string last_byte
good_edges Method.get uri = rw (last_byte-append b' ' b' ' uri (codes "HTTP/1.1"))
good_edges _ uri = rw (last_byte-append b' ' b' ' uri (codes "HTTP/1.1"))

process_uri-accepts :
    (start : ℕ) (line : Bytes) (at' : ℕ) (uri : Bytes) (p : Parser)
    → drop at' line ≡ uri ++ b' ' ∷ codes "HTTP/1.1"
    → length uri ≤ max_uri_length
    → contains_invalid_uri_char uri ≡ false
    → process_uri start line at' p
      ≡ (record p { request_uri = in_buffer p.generation (start + at') (length uri) }, ok tt)
unfolding process_uri
process_uri-accepts start line at' uri p e short valid =
    let here : slice at' (length uri) line ≡ uri =
      rw e (take-append_length uri (b' ' ∷ codes "HTTP/1.1")) in
    let behind : drop (at' + length uri + 1) line ≡ codes "HTTP/1.1" =
      let regroup : at' + length uri + 1 ≡ at' + (length uri + 1) = omega arith in
      rw (regroup, drop-drop at' (length uri + 1) line, e)
        (drop-append_cons uri b' ' (codes "HTTP/1.1")) in
    let found : find_byte b' ' (drop at' line) ≡ some (length uri) =
      rw e (find_byte-append b' ' uri (codes "HTTP/1.1") (valid_uri-Lacks uri valid)) in
    ground (arith, found, here, behind, valid, bytes_eq_refl (codes "HTTP/1.1"))

-- A well-formed request line with a known method and a valid URI of at most 2048 bytes is accepted;
-- the method is the one written, and the URI is the view of its bytes in the buffer.
pub process_request_line-accepts :
    (start : ℕ) (m : Method) (uri : Bytes) (p : Parser)
    → m ≢ Method.unknown
    → length uri ≤ max_uri_length
    → contains_invalid_uri_char uri ≡ false
    → process_request_line start (request_line_text m uri) p ≡ (
      record p {
        request_method = m;
        request_uri =
            in_buffer p.generation (start + (length (method_to_string m) + 1)) (length uri);
      },
      ok tt,
    )
unfolding process_request_line
process_request_line-accepts start m uri p known short valid =
    let rest : Bytes = uri ++ b' ' ∷ codes "HTTP/1.1" in
    let word : Bytes = method_to_string m in
    ground (
      arith,
      good_edges m uri,
      find_byte-append b' ' word rest (method-Lacks m),
      take-append_length word (b' ' ∷ rest),
      parse_method-method_to_string m,
      process_uri-accepts start (request_line_text m uri) (length word + 1) uri
          (record p { request_method = m }) (drop-append_cons word b' ' rest) short valid,
    )

process_uri_sound :
    (start : ℕ) (line : Bytes) (at' : ℕ) (p q : Parser)
    → process_uri start line at' p ≡ (q, ok tt)
    → (uri : Bytes) × (drop at' line ≡ uri ++ b' ' ∷ codes "HTTP/1.1")
      × (length uri ≤ max_uri_length)
      × (contains_invalid_uri_char uri ≡ false)
      × (q ≡ record p { request_uri = in_buffer p.generation (start + at') (length uri) })
unfolding process_uri
process_uri_sound start line at' p q h = elim (Option-cases (find_byte b' ' (drop at' line))) [
  | inl e ↦ ground arith
  | inr (n, e) ↦
      let (split, lacks, lt) = find_byte_split b' ' (drop at' line) n e in
      let regroup : at' + n + 1 ≡ at' + (n + 1) = omega arith in
      let behind = drop-drop at' (n + 1) line in
      let size : length (take n (drop at' line)) ≡ n =
        omega (arith, length-take n (drop at' line)) in
      (
        take n (drop at' line),
        ground (
          arith,
          e,
          h,
          split,
          regroup,
          behind,
          bytes_eq→eq (drop (at' + n + 1) line) (codes "HTTP/1.1"),
        ),
        ground (arith, e, h),
        ground (arith, e, h),
        ground (arith, e, h, size),
      )
]

line_of :
    (line word tail' uri : Bytes) (m : Method)
    → m ≡ parse_method word
    → m ≢ Method.unknown
    → line ≡ word ++ b' ' ∷ tail'
    → tail' ≡ uri ++ b' ' ∷ codes "HTTP/1.1"
    → line ≡ request_line_text m uri
line_of line word tail' uri m e known split t =
    let w : word ≡ method_to_string m =
      rw e (method_to_string-parse_method word (λ u. known (e ∙ u))) in
    cc

-- Whatever line is accepted has that form: a known method, one blank, a valid URI of at most 2048
-- bytes, one blank and HTTP/1.1; and the request has that method.
pub process_request_line_sound :
    (start : ℕ) (line : Bytes) (p q : Parser)
    → process_request_line start line p ≡ (q, ok tt)
    → (uri : Bytes) × (line ≡ request_line_text q.request_method uri)
      × (q.request_method ≢ Method.unknown)
      × (length uri ≤ max_uri_length)
      × (contains_invalid_uri_char uri ≡ false)
unfolding process_request_line
process_request_line_sound start line p q h = elim (Option-cases (find_byte b' ' line)) [
  | inl e ↦ ground arith
  | inr (n, e) ↦
      let m = parse_method (take n line) in
      let with_method : Parser = record p { request_method = m } in
      let known : m ≢ Method.unknown = ground (arith, e, h) in
      let ran : process_uri start line (n + 1) with_method ≡ (q, ok tt) = ground (arith, e, h) in
      let (uri, tail', short, valid, result) =
        process_uri_sound start line (n + 1) with_method q ran in
      let (split, lacks, lt) = find_byte_split b' ' line n e in
      let same : q.request_method ≡ m = ap (λ (r : Parser). r.request_method) result in
      (
        uri,
        line_of line (take n line) (drop (n + 1) line) uri q.request_method same
            (λ u. known (sym same ∙ u)) split tail',
        (λ u. known (sym same ∙ u)),
        short,
        valid,
      )
]
