-- ===== src/Serde/Strings.antt =====
-- What `json_cursor::string` makes of a string that was escaped.
use visage_dvachevsky_tempre.Base.{
  ℕ, ◌/◌, ◌<◌, ◌≡◌, refl, sym, ◌∙◌, ap, Bool, true, false, not, ◌&&◌, Option, none, some, [], ◌∷◌,
  ◌++◌, Bytes, get_or, ◌==◌, if◌then◌else◌, arith, if-elim, append-nil, append_assoc, table,
  table_entry,
}
use Prim.Native.Nat.{bit_and}
use mathlib.Core.Path.{subst}
use visage_dvachevsky_tempre.Serde.Cursor.{is_json_whitespace, skip_ws, scan_string, string}
use visage_dvachevsky_tempre.Serde.Escape.{needs_escape, hex, escape_one_char, escape_json_string}
use visage_dvachevsky_tempre.Serde.Escaped.{escaped, escape_json_string_lem}

-- The text in front of what a scan found.
abbrev in_front : Bytes → Option (Bytes × Bytes) → Option (Bytes × Bytes)
in_front p none = none
in_front p (some (text, after)) = some (p ++ text, after)

-- A piece that the scan takes whole and leaves outside of an escape.
IsPiece : Bytes → Type 0
IsPiece p = (r : Bytes) → scan_string false (p ++ r) ≡ in_front p (scan_string false r)

in_front-append :
    (p q : Bytes) (o : Option (Bytes × Bytes)) → in_front p (in_front q o) ≡ in_front (p ++ q) o
in_front-append p q none = refl
in_front-append p q (some (text, after)) = ap (λ t. some (t, after)) (sym (append_assoc p q text))

IsPiece-append : (p q : Bytes) → IsPiece p → IsPiece q → IsPiece (p ++ q)
unfolding IsPiece
IsPiece-append p q a b r =
    ap (scan_string false) (append_assoc p q r)
    ∙ a (q ++ r)
    ∙ ap (in_front p) (b r)
    ∙ in_front-append p q (scan_string false r)

-- A character that is neither a quote nor a backslash.
plain : ℕ → Bool
plain c = not (c == b'"') && not (c == b'\\')

IsPiece-nil : IsPiece []
unfolding IsPiece
IsPiece-nil r = from (scan_string false r)
  where
    from : (o : Option (Bytes × Bytes)) → o ≡ in_front [] o
    from none = refl
    from (some (text, after)) = refl

and_left : (a b : Bool) → (a && b) ≡ true → a ≡ true
and_left a b q = ground (arith, q)

and_right : (a b : Bool) → (a && b) ≡ true → b ≡ true
and_right a b q = ground (arith, q)

pushed :
    (c : ℕ) (o : Option (Bytes × Bytes))
    → (elim o as (λ _. Option (Bytes × Bytes)) [
      | none ↦ none
      | some (text, after) ↦ some (c ∷ text, after)
    ])
      ≡ in_front (c ∷ []) o
pushed c none = refl
pushed c (some (text, after)) = refl

IsPiece-plain : (c : ℕ) → plain c ≡ true → IsPiece (c ∷ [])
unfolding IsPiece plain scan_string
IsPiece-plain c q r = ground (arith, q, pushed c (scan_string false r))

IsPiece-pair : (c : ℕ) → IsPiece (b'\\' ∷ c ∷ [])
unfolding IsPiece scan_string
IsPiece-pair c r = from (scan_string false r)
  where
    from :
        (o : Option (Bytes × Bytes))
        → (elim (elim o as (λ _. Option (Bytes × Bytes)) [
          | none ↦ none
          | some (text, after) ↦ some (c ∷ text, after)
        ])
            as (λ _. Option (Bytes × Bytes)) [
              | none ↦ none
              | some (text, after) ↦ some (b'\\' ∷ text, after)
            ])
          ≡ in_front (b'\\' ∷ c ∷ []) o
    from none = refl
    from (some (text, after)) = refl

IsPiece-hex :
    (c : ℕ)
    → plain (get_or hex (bit_and (c / 16) 0xf) 0) && plain (get_or hex (bit_and c 0xf) 0) ≡ true
    → IsPiece (
        b'\\'
        ∷ b'u'
        ∷ b'0'
        ∷ b'0'
        ∷ get_or hex (bit_and (c / 16) 0xf) 0
        ∷ get_or hex (bit_and c 0xf) 0
        ∷ [])
unfolding plain
IsPiece-hex c q =
    let h : ℕ = get_or hex (bit_and (c / 16) 0xf) 0 in
    let l : ℕ = get_or hex (bit_and c 0xf) 0 in
    IsPiece-append (b'\\' ∷ b'u' ∷ []) (b'0' ∷ b'0' ∷ h ∷ l ∷ []) (IsPiece-pair b'u') (
      IsPiece-append (b'0' ∷ []) (b'0' ∷ h ∷ l ∷ []) (IsPiece-plain b'0' refl) (
        IsPiece-append (b'0' ∷ []) (h ∷ l ∷ []) (IsPiece-plain b'0' refl) (
          IsPiece-append (h ∷ []) (l ∷ []) (IsPiece-plain h (and_left (plain h) (plain l) q))
            (IsPiece-plain l (and_right (plain h) (plain l) q)))))

hex_plain : ℕ → Bool
unfolding plain
hex_plain c = plain (get_or hex (bit_and (c / 16) 0xf) 0) && plain (get_or hex (bit_and c 0xf) 0)

hex_plain_below : table hex_plain 0x20 ≡ true
unfolding table hex_plain
hex_plain_below = refl

IsPiece-control :
    (c : ℕ)
    → c < 0x20
    → IsPiece (
        b'\\'
        ∷ b'u'
        ∷ b'0'
        ∷ b'0'
        ∷ get_or hex (bit_and (c / 16) 0xf) 0
        ∷ get_or hex (bit_and c 0xf) 0
        ∷ [])
unfolding hex_plain
IsPiece-control c h = IsPiece-hex c (table_entry hex_plain 0x20 c h hex_plain_below)

IsPiece-escape_one_char : (c : ℕ) → needs_escape c ≡ true → IsPiece (escape_one_char c)
unfolding escape_one_char needs_escape
IsPiece-escape_one_char c q =
    if-elim IsPiece (c == b'\\') _ _ (λ e. IsPiece-pair b'\\')
      (λ bs.
        if-elim IsPiece (c == b'"') _ _ (λ e. IsPiece-pair b'"')
          (λ qt.
            if-elim IsPiece (c == b'\n') _ _ (λ e. IsPiece-pair b'n')
              (λ lf.
                if-elim IsPiece (c == b'\r') _ _ (λ e. IsPiece-pair b'r')
                  (λ cr.
                    if-elim IsPiece (c == b'\t') _ _ (λ e. IsPiece-pair b't')
                      (λ tab. IsPiece-control c (ground (arith, q, bs, qt)))))))

keeps-plain : (c : ℕ) → needs_escape c ≡ false → plain c ≡ true
unfolding needs_escape plain
keeps-plain c q = ground (arith, q)

IsPiece-escaped : (s : Bytes) → IsPiece (escaped s)
unfolding escaped
IsPiece-escaped [] = IsPiece-nil
IsPiece-escaped (c ∷ r) =
    IsPiece-append (if needs_escape c then escape_one_char c else c ∷ []) (escaped r)
      (if-elim IsPiece (needs_escape c) _ _ (IsPiece-escape_one_char c)
        (λ q. IsPiece-plain c (keeps-plain c q)))
      (IsPiece-escaped r)

skip_quote : (t : Bytes) → skip_ws (b'"' ∷ t) ≡ b'"' ∷ t
unfolding skip_ws is_json_whitespace
skip_quote t = refl

scan_quote : (rest : Bytes) → scan_string false (b'"' ∷ rest) ≡ some ([], rest)
unfolding scan_string
scan_quote rest = refl

scanned :
    (s rest : Bytes)
    → scan_string false (escape_json_string s ++ b'"' ∷ rest) ≡ some (escape_json_string s, rest)
unfolding IsPiece
scanned s rest =
    let e : escaped s ≡ escape_json_string s = sym (escape_json_string_lem s []).0 in
    subst (λ t. scan_string false (t ++ b'"' ∷ rest) ≡ some (t, rest)) e
      (IsPiece-escaped s (b'"' ∷ rest)
        ∙ ap (in_front (escaped s)) (scan_quote rest)
        ∙ ap (λ t. some (t, rest)) (append-nil (escaped s)))

-- `string` reads back any text that `escape_json_string` wrote, between quotes: all of it, and what
-- follows the closing quote is left.
pub string-escape_json_string :
    (s rest : Bytes)
    → string (b'"' ∷ escape_json_string s ++ b'"' ∷ rest) ≡ (some (escape_json_string s), rest)
unfolding string
string-escape_json_string s rest =
    ground (arith, skip_quote (escape_json_string s ++ b'"' ∷ rest), scanned s rest)
