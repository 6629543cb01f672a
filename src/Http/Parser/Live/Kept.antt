-- ===== src/Http/Parser/Live/Kept.antt =====
-- The states of the parser keep its views live.
use visage_dvachevsky_tempre.Base.{
  ℕ, ◌+◌, ◌≡◌, refl, Option, none, some, [], ◌∷◌, ◌++◌, Bytes, length, take, drop, ◌==◌,
  if◌then◌else◌, if-elim, arith, Bool-cases, Option-cases, inl, inr,
}
use mathlib.Core.Path.{subst}
use visage_dvachevsky_tempre.Digits.{from_chars}
use visage_dvachevsky_tempre.Http.Headers.{
  HeadersMap, get_known, set_known_borrowed, set_unknown_borrowed,
}
use visage_dvachevsky_tempre.Http.Parser.{
  State, request_line, headers, body, chunk_size, chunk_data, chunk_trailer, complete, View,
  in_buffer, owned, Env, Parser,
}
use visage_dvachevsky_tempre.Http.Parser.Text.{
  find_crlf, find_byte, is_ows, trim_ows, trim_front, contains_invalid_header_value,
}
use visage_dvachevsky_tempre.Http.Parser.Buffer.{read_view, views}
use visage_dvachevsky_tempre.Http.Parser.Lines.{
  field_host, field_content_length, fold_line, store_known, store_unknown, store_header,
  process_header_line, value_start, get_by_name, is_host, is_content_length,
}
use visage_dvachevsky_tempre.Http.Parser.Steps.{
  unparsed, finish_headers, header_line, parse_headers_state, parse_state,
}
use visage_dvachevsky_tempre.Http.Parser.Live.{
  IsLive, IsLiveName, MapLive, ViewsLive, set_known_borrowed-MapLive, set_unknown_borrowed-MapLive,
}
use visage_dvachevsky_tempre.Http.Parser.Live.Untouched.{
  Untouched-ViewsLive, request_line-Untouched, finish_headers-Untouched, body-Untouched,
  chunk_size-Untouched, chunk_data-Untouched, chunk_trailer-Untouched,
}

module _ (g : ℕ) (env : Env) where
  store_known-ViewsLive :
      (k : ℕ) (value : View) (p : Parser)
      → ViewsLive g p
      → IsLive g value
      → ViewsLive g (store_known env k value p)
  unfolding store_known
  store_known-ViewsLive k value p l n = record {
    current = l.current;
    headers =
        set_known_borrowed-MapLive g (read_view env p) env.arena k value p.request_headers n
          l.headers;
    last = l.last;
  }

  store_unknown-ViewsLive :
      (name value : View) (p : Parser)
      → ViewsLive g p
      → IsLive g name
      → IsLive g value
      → ViewsLive g (store_unknown env name value p)
  unfolding store_unknown
  store_unknown-ViewsLive name value p l n v = record {
    current = l.current;
    headers =
        set_unknown_borrowed-MapLive g (read_view env p) env.arena name value p.request_headers n v
          l.headers;
    last = n;
  }

  abbrev LiveIf : Parser → Type 0
  LiveIf p = ViewsLive g p

  store_header-ViewsLive :
      (name : Bytes) (name_view : View) (value : Bytes) (value_view : View) (p : Parser)
      → ViewsLive g p
      → IsLive g name_view
      → IsLive g value_view
      → ViewsLive g (store_header env name name_view value value_view p)
  unfolding store_header
  store_header-ViewsLive name name_view value value_view p l n v =
      let q : Parser = record p { last_header_field = 0; last_header_name = none } in
      let forgotten : ViewsLive g q = record {
        current = l.current;
        headers = l.headers;
        last = tt;
      } in
      let k : ℕ = env.string_to_field name in
      let len : ℕ = elim (from_chars 10 value) [ none ↦ p.content_length | some (c, _) ↦ c ] in
      let sized : Parser =
        store_known env field_content_length value_view (record q { content_length = len }) in
      let by_name : Parser =
        if k == 0
        then store_unknown env name_view value_view q
        else store_known env k value_view q in
      let other : ViewsLive g by_name =
        if-elim LiveIf (k == 0) (store_unknown env name_view value_view q)
          (store_known env k value_view q)
          (λ c. store_unknown-ViewsLive name_view value_view q forgotten n v)
          (λ c. store_known-ViewsLive k value_view q forgotten v) in
      let second : ViewsLive g (if is_content_length name then sized else by_name) =
        if-elim LiveIf (is_content_length name) sized by_name
          (λ b.
            store_known-ViewsLive field_content_length value_view
              (record q { content_length = len })
              (record { current = l.current; headers = l.headers; last = tt }) v)
          (λ b. other) in
      if-elim LiveIf (is_host name) (store_known env field_host value_view q)
        (if is_content_length name then sized else by_name)
        (λ a. store_known-ViewsLive field_host value_view q forgotten v) (λ a. second)

  process_header_line-ViewsLive :
      (start : ℕ) (line : Bytes) (p : Parser)
      → ViewsLive g p
      → ViewsLive g (process_header_line env start line p).0
  unfolding process_header_line
  process_header_line-ViewsLive start line p l = elim (Option-cases (find_byte b':' line)) [
    | inl e ↦ ground (arith, e)
    | inr (n, e) ↦ ground (
      arith,
      e,
      store_header-ViewsLive (take n line) (in_buffer p.generation start n)
          (trim_ows (drop (n + 1) line))
          (in_buffer p.generation (start + value_start n line)
            (length (trim_ows (drop (n + 1) line))))
          p l l.current l.current,
    )
  ]

  -- What a folded line stores.
  abbrev stored : Parser → View → View → HeadersMap View
  stored p name combined =
      if p.last_header_field == 0
      then set_unknown_borrowed ⦃t = views env p⦄ env.arena name combined p.request_headers
      else set_known_borrowed ⦃t = views env p⦄ env.arena p.last_header_field combined
          p.request_headers

  stored-MapLive :
      (p : Parser) (name : View) (text : Bytes)
      → ViewsLive g p
      → IsLive g name
      → MapLive g (stored p name (owned text))
  stored-MapLive p name text l n =
      if-elim (MapLive g) (p.last_header_field == 0)
        (set_unknown_borrowed ⦃t = views env p⦄ env.arena name (owned text) p.request_headers)
        (set_known_borrowed ⦃t = views env p⦄ env.arena p.last_header_field (owned text)
          p.request_headers)
        (λ z.
          set_unknown_borrowed-MapLive g (read_view env p) env.arena name (owned text)
            p.request_headers n tt l.headers)
        (λ z.
          set_known_borrowed-MapLive g (read_view env p) env.arena p.last_header_field (owned text)
            p.request_headers tt l.headers)

  fold_line-ViewsLive :
      (line : Bytes) (p : Parser) → ViewsLive g p → ViewsLive g (fold_line env line p).0
  unfolding fold_line
  fold_line-ViewsLive line p l = from p.last_header_name refl
    where
      at_value :
          (name : View)
          → p.last_header_name ≡ some name
          → IsLive g name
          → (o : Option View)
          → (if p.last_header_field == 0
              then get_by_name env p (read_view env p name)
              else get_known p.last_header_field p.request_headers)
            ≡ o
          → ViewsLive g (fold_line env line p).0
      at_value name a n none b = subst (ViewsLive g) {x = p} (ground (arith, a, b)) l
      at_value name a n (some v) b =
          let folded : Bytes = trim_ows (trim_front is_ows line) in
          let h : HeadersMap View = stored p name (owned (read_view env p v ++ b' ' ∷ folded)) in
          let live : MapLive g h = stored-MapLive p name (read_view env p v ++ b' ' ∷ folded) l n in
          elim (Bool-cases (contains_invalid_header_value folded)) [
            | inl bad ↦ subst (ViewsLive g) {x = p} (ground (arith, a, b, bad)) l
            | inr good ↦ elim (Bool-cases env.arena) [
              | inr no' ↦ subst (ViewsLive g) {x = p} (ground (arith, a, b, good, no')) l
              | inl y ↦
                  subst (ViewsLive g) {x = record p { request_headers = h }}
                    (ground (arith, a, b, good, y))
                    (record { current = l.current; headers = live; last = l.last })
            ]
          ]

      from : (o : Option View) → p.last_header_name ≡ o → ViewsLive g (fold_line env line p).0
      from none a = subst (ViewsLive g) {x = p} (ground (arith, a)) l
      from (some name) a =
          at_value name a (subst (IsLiveName g) {x = p.last_header_name} a l.last) _ refl

  header_line-ViewsLive :
      (start : ℕ) (line : Bytes) (p : Parser)
      → ViewsLive g p
      → ViewsLive g (header_line env start line p).0
  unfolding header_line
  header_line-ViewsLive start [] p l =
      Untouched-ViewsLive g p (finish_headers env p).0 (finish_headers-Untouched env p) l
  header_line-ViewsLive start (c ∷ r) p l =
      ground
        (arith, fold_line-ViewsLive (c ∷ r) p l, process_header_line-ViewsLive start (c ∷ r) p l)

  headers-ViewsLive : (p : Parser) → ViewsLive g p → ViewsLive g (parse_headers_state env p).0
  unfolding parse_headers_state
  headers-ViewsLive p l = elim (Option-cases (find_crlf (unparsed p))) [
    | inl e ↦ ground (arith, e)
    | inr (n, e) ↦ ground (
      arith,
      e,
      header_line-ViewsLive p.parse_pos (take n (unparsed p))
          (record p { parse_pos = p.parse_pos + n + 2 })
          (record { current = l.current; headers = l.headers; last = l.last }),
    )
  ]

  -- Every state keeps the views live, whether it refuses the input or not.
  pub parse_state-ViewsLive :
      (s : State) (p : Parser) → ViewsLive g p → ViewsLive g (parse_state env s p).0
  unfolding parse_state
  parse_state-ViewsLive request_line p l = Untouched-ViewsLive g p _ (request_line-Untouched p) l
  parse_state-ViewsLive headers p l = headers-ViewsLive p l
  parse_state-ViewsLive body p l = Untouched-ViewsLive g p _ (body-Untouched p) l
  parse_state-ViewsLive chunk_size p l = Untouched-ViewsLive g p _ (chunk_size-Untouched p) l
  parse_state-ViewsLive chunk_data p l = Untouched-ViewsLive g p _ (chunk_data-Untouched env p) l
  parse_state-ViewsLive chunk_trailer p l = Untouched-ViewsLive g p _ (chunk_trailer-Untouched p) l
  parse_state-ViewsLive complete p l = l
