-- ===== src/Http/Parser/Live/Lines.antt =====
-- The lines of the header section read no freed memory while the views of the parser are live, and
-- they keep them live.
use visage_dvachevsky_tempre.Base.{
  ℕ, ◌+◌, ◌≡◌, refl, sym, Option, none, some, ◌∷◌, ◌++◌, Bytes, length, take, drop, ◌==◌,
  if◌then◌else◌, arith, Bool-cases, Option-cases, inl, inr,
}
use mathlib.Core.Path.{subst}
use visage_dvachevsky_tempre.Digits.{from_chars}
use visage_dvachevsky_tempre.Http.Headers.{
  assign_known, set_known_borrowed, set_unknown_borrowed, get_known,
}
use visage_dvachevsky_tempre.Http.Parser.{View, in_buffer, owned, Env, Parser}
use visage_dvachevsky_tempre.Http.Parser.Text.{find_byte, is_ows, trim_ows, trim_front}
use visage_dvachevsky_tempre.Http.Parser.Buffer.{read_view, views}
use visage_dvachevsky_tempre.Http.Parser.Lines.{
  field_host, field_content_length, field_transfer_encoding, get_by_name, fold_line, store_known,
  store_unknown, store_header, process_header_line, value_start,
}
use visage_dvachevsky_tempre.Http.Parser.Steps.{finish_headers}
use visage_dvachevsky_tempre.Http.Parser.Live.{
  IsLive, IsLiveName, ViewsLive, with_freed, read_same, get_known-IsLive, get_unknown-agree,
  set_unknown_borrowed-agree, get_unknown-IsLive,
}

module _ (f : ℕ → ℕ → ℕ → Bytes) (g : ℕ) (env : Env) where
  read_live :
      (p : Parser)
      → ViewsLive g p
      → (v : View) → IsLive g v
      → read_view (with_freed f env) p v ≡ read_view env p v
  read_live p l v n = read_same f env p v (subst (λ h. IsLive h v) (sym l.current) n)

  pub finish_headers_same :
      (p : Parser) → ViewsLive g p → finish_headers (with_freed f env) p ≡ finish_headers env p
  unfolding finish_headers
  finish_headers_same p l =
      from (get_known field_transfer_encoding p.request_headers) refl
        (get_known field_content_length p.request_headers) refl
    where
      live : (k : ℕ) (v : View) → get_known k p.request_headers ≡ some v → IsLive g v
      live k v e = get_known-IsLive g k p.request_headers v l.headers e

      from :
          (te : Option View)
          → get_known field_transfer_encoding p.request_headers ≡ te
          → (cl : Option View) → get_known field_content_length p.request_headers ≡ cl
          → finish_headers (with_freed f env) p ≡ finish_headers env p
      from none a none b = ground (arith, a, b)
      from none a (some v) b = ground (arith, a, b, read_live p l v (live field_content_length v b))
      from (some t) a none b =
          ground (arith, a, b, read_live p l t (live field_transfer_encoding t a))
      from (some t) a (some v) b = ground (
        arith,
        a,
        b,
        read_live p l t (live field_transfer_encoding t a),
        read_live p l v (live field_content_length v b),
      )

  get_by_name_same :
      (p : Parser) (name : Bytes)
      → ViewsLive g p
      → get_by_name (with_freed f env) p name ≡ get_by_name env p name
  unfolding get_by_name
  get_by_name_same p name l = ground (
    arith,
    get_unknown-agree g (read_view (with_freed f env) p) (read_view env p) (read_live p l) name
        p.request_headers l.headers,
  )

  -- What is stored is the same, whatever freed memory holds.
  stored_same :
      (p : Parser) (name value : View)
      → ViewsLive g p
      → IsLive g name
      → set_unknown_borrowed ⦃t = views (with_freed f env) p⦄ env.arena name value p.request_headers
        ≡ set_unknown_borrowed ⦃t = views env p⦄ env.arena name value p.request_headers
  stored_same p name value l n =
      set_unknown_borrowed-agree g (read_view (with_freed f env) p) (read_view env p)
        (read_live p l) env.arena name value p.request_headers n l.headers

  set_known_same :
      (p : Parser) (k : ℕ) (value : View)
      → set_known_borrowed ⦃t = views (with_freed f env) p⦄ env.arena k value p.request_headers
        ≡ set_known_borrowed ⦃t = views env p⦄ env.arena k value p.request_headers
  unfolding set_known_borrowed assign_known
  set_known_same p k value = refl

  get_by_name-IsLive :
      (p : Parser) (name : Bytes) (v : View)
      → ViewsLive g p
      → get_by_name env p name ≡ some v
      → IsLive g v
  unfolding get_by_name
  get_by_name-IsLive p name v l e = elim (Bool-cases (env.string_to_field name == 0)) [
    | inl z ↦
        get_unknown-IsLive g (read_view env p) name p.request_headers v l.headers
          (ground (arith, z, e))
    | inr z ↦
        get_known-IsLive g (env.string_to_field name) p.request_headers v l.headers
          (ground (arith, z, e))
  ]

  pub fold_line_same :
      (line : Bytes) (p : Parser)
      → ViewsLive g p
      → fold_line (with_freed f env) line p ≡ fold_line env line p
  unfolding fold_line
  fold_line_same line p l = from p.last_header_name refl
    where
      at_name :
          (name : View)
          → p.last_header_name ≡ some name
          → IsLive g name
          → (o : Option View)
          → (if p.last_header_field == 0
              then get_by_name env p (read_view env p name)
              else get_known p.last_header_field p.request_headers)
            ≡ o
          → fold_line (with_freed f env) line p ≡ fold_line env line p
      at_name name a n none b =
          ground (arith, a, b, read_live p l name n, get_by_name_same p (read_view env p name) l)
      at_name name a n (some v) b = elim (Bool-cases (p.last_header_field == 0)) [
        | inl z ↦
            let lv : IsLive g v =
              get_by_name-IsLive p (read_view env p name) v l (ground (arith, z, b)) in
            ground (
              arith,
              a,
              b,
              z,
              read_live p l name n,
              get_by_name_same p (read_view env p name) l,
              read_live p l v lv,
              stored_same p name
                  (owned (read_view env p v ++ b' ' ∷ trim_ows (trim_front is_ows line))) l n,
            )
        | inr z ↦
            let lv : IsLive g v =
              get_known-IsLive g p.last_header_field p.request_headers v l.headers
                (ground (arith, z, b)) in
            ground (
              arith,
              a,
              b,
              z,
              read_live p l v lv,
              set_known_same p p.last_header_field
                  (owned (read_view env p v ++ b' ' ∷ trim_ows (trim_front is_ows line))),
            )
      ]

      from :
          (o : Option View)
          → p.last_header_name ≡ o
          → fold_line (with_freed f env) line p ≡ fold_line env line p
      from none a = ground (arith, a)
      from (some name) a =
          at_name name a (subst (IsLiveName g) {x = p.last_header_name} a l.last) _ refl

  store_known_same :
      (k : ℕ) (value : View) (p : Parser)
      → store_known (with_freed f env) k value p ≡ store_known env k value p
  unfolding store_known set_known_borrowed assign_known
  store_known_same k value p = refl

  store_unknown_same :
      (name value : View) (p : Parser)
      → ViewsLive g p
      → IsLive g name
      → store_unknown (with_freed f env) name value p ≡ store_unknown env name value p
  unfolding store_unknown
  store_unknown_same name value p l n = ground (arith, stored_same p name value l n)

  abbrev forgotten : Parser → Parser
  forgotten p = record p { last_header_field = 0; last_header_name = none }

  forgotten-ViewsLive : (p : Parser) → ViewsLive g p → ViewsLive g (forgotten p)
  forgotten-ViewsLive p l = record { current = l.current; headers = l.headers; last = tt }

  store_header_same :
      (name : Bytes) (name_view : View) (value : Bytes) (value_view : View) (p : Parser)
      → ViewsLive g p
      → IsLive g name_view
      → store_header (with_freed f env) name name_view value value_view p
        ≡ store_header env name name_view value value_view p
  unfolding store_header
  store_header_same name name_view value value_view p l n =
      let len : ℕ = elim (from_chars 10 value) [ none ↦ p.content_length | some (v, _) ↦ v ] in
      ground (
        arith,
        store_unknown_same name_view value_view (forgotten p) (forgotten-ViewsLive p l) n,
        store_known_same (env.string_to_field name) value_view (forgotten p),
        store_known_same field_host value_view (forgotten p),
        store_known_same field_content_length value_view
            (record (forgotten p) { content_length = len }),
      )

  pub process_header_line_same :
      (start : ℕ) (line : Bytes) (p : Parser)
      → ViewsLive g p
      → process_header_line (with_freed f env) start line p ≡ process_header_line env start line p
  unfolding process_header_line
  process_header_line_same start line p l = elim (Option-cases (find_byte b':' line)) [
    | inl e ↦ ground (arith, e)
    | inr (n, e) ↦ ground (
      arith,
      e,
      store_header_same (take n line) (in_buffer p.generation start n)
          (trim_ows (drop (n + 1) line))
          (in_buffer p.generation (start + value_start n line)
            (length (trim_ows (drop (n + 1) line))))
          p l l.current,
    )
  ]
