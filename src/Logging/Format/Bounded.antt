-- ===== src/Logging/Format/Bounded.antt =====
-- A record is one line of at most 8192 bytes (logging_setup.py, `ServiceFormatter.format`).
use xian_dex_automation.Base.{
  ℕ, ◌-◌, ◌≤◌, String, false, List, [], ◌∷◌, ◌++◌, Option, none, some, Dict, lookup, ◌≡◌, ◌≢◌, inl,
  inr, arith, All, Bool-cases, leb,
}
use xian_dex_automation.Config.Validation.{codes}
use xian_dex_automation.Logging.Line.{Chars, Value, Unicode, one_line}
use xian_dex_automation.Logging.Line.OneLine.{
  IsPlain, IsPrintable, All-append, one_line-IsPlain, one_line_text-IsPlain,
}
use xian_dex_automation.Logging.Format.{
  Record, context_fields, is_plain_word, field, join_fields, utf8_width, utf8_size, fit, field_of,
  fields_of, with_fields, whole_line, format,
}

-- No control character and no line or paragraph separator.
abbrev pub IsInline : Unicode → ℕ → Type 0
IsInline u c = (u.is_control c ≡ false) × (c ≢ 8232) × (c ≢ 8233)

utf8_size-fit : (n : ℕ) (cs : Chars) → utf8_size (fit n cs) ≤ n
unfolding utf8_size fit
utf8_size-fit n [] = omega arith
utf8_size-fit n (c ∷ cs) = ground (arith, utf8_size-fit (n - utf8_width c) cs)

All-fit : (P : ℕ → Type 0) (n : ℕ) (cs : Chars) → All P cs → All P (fit n cs)
unfolding fit
All-fit P n [] h = tt
All-fit P n (c ∷ cs) h = elim (Bool-cases (leb (utf8_width c) n)) [
  | inl e ↦ rw e (h.0, All-fit P (n - utf8_width c) cs h.1)
  | inr e ↦ rw e tt
]

All-join_fields :
    (P : ℕ → Type 0) (separator : Chars) (xs : List Chars)
    → All P separator
    → All (All P) xs
    → All P (join_fields separator xs)
unfolding join_fields
All-join_fields P separator [] s h = tt
All-join_fields P separator (x ∷ []) s h = h.0
All-join_fields P separator (x ∷ y ∷ rest) s h =
    All-append P x _ (h.0)
      (All-append P separator _ s (All-join_fields P separator (y ∷ rest) s h.1))

module _ (u : Unicode) (ascii : (c : ℕ) → 32 ≤ c → c ≤ 126 → u.is_control c ≡ false) where
  printable-IsInline : (cs : Chars) → All IsPrintable cs → All (IsInline u) cs
  printable-IsInline [] h = tt
  printable-IsInline (c ∷ cs) h =
      let (low, high) = h.0 in
      ((ascii c low high, omega arith, omega arith), printable-IsInline cs h.1)

  plain-IsInline : (cs : Chars) → All (IsPlain u) cs → All (IsInline u) cs
  plain-IsInline [] h = tt
  plain-IsInline (c ∷ cs) h = ((h.0.0, h.0.1, h.0.2), plain-IsInline cs h.1)

  one_line-IsInline : (limit : ℕ) (v : Value) → All (IsInline u) (one_line u limit v)
  one_line-IsInline limit v = plain-IsInline _ (one_line-IsPlain u limit v ascii)

  sign-IsInline : (c : ℕ) → IsPrintable c → IsInline u c
  sign-IsInline c h = (printable-IsInline (c ∷ []) (h, tt)).0

  field-IsInline :
      (key : String) (t : Chars)
      → All IsPrintable (codes key)
      → All (IsInline u) t
      → All (IsInline u) (field key t)
  unfolding field
  field-IsInline key t k h =
      let named = printable-IsInline (codes key) k in
      let equals = sign-IsInline b'=' (omega arith) in
      let quote = sign-IsInline b'"' (omega arith) in
      elim (Bool-cases (is_plain_word t)) [
        | inl e ↦ rw e (All-append (IsInline u) (codes key) _ named (equals, h))
        | inr e ↦ rw e (
            All-append (IsInline u) (codes key) _ named
              (equals, (quote, All-append (IsInline u) t _ h (quote, tt))))
      ]

  field_of-IsInline :
      (key : String) (v : Option Value)
      → All IsPrintable (codes key)
      → All (All (IsInline u)) (field_of u key v)
  unfolding field_of
  field_of-IsInline key none k = tt
  field_of-IsInline key (some v) k =
      (field-IsInline key _ k (plain-IsInline _ (one_line_text-IsPlain u ascii _)), tt)

  fields_of-IsInline :
      (keys : List String) (context : Dict Value)
      → All (λ key. All IsPrintable (codes key)) keys
      → All (All (IsInline u)) (fields_of u keys context)
  unfolding fields_of
  fields_of-IsInline [] context k = tt
  fields_of-IsInline (key ∷ keys) context k =
      All-append (All (IsInline u)) (field_of u key (lookup key context)) _
        (field_of-IsInline key (lookup key context) (k.0)) (fields_of-IsInline keys context k.1)

  with_fields-IsInline :
      (line fields : Chars)
      → All (IsInline u) line
      → All (IsInline u) fields
      → All (IsInline u) (with_fields u line fields)
  unfolding with_fields
  with_fields-IsInline line [] h k = h
  with_fields-IsInline line (c ∷ fields) h k = All-append (IsInline u) line _ h (
      All-append (IsInline u) (codes " | ") (c ∷ fields)
        (printable-IsInline (codes " | ") (omega arith)) k)

context_fields-Printable : All (λ key. All IsPrintable (codes key)) context_fields
context_fields-Printable = omega arith

-- If the printable characters of ASCII are no control characters, and the printed time and the name
-- of the service consist of such, then a formatted record, whatever its fields and its message, has
-- no control character (so no line break) and no line or paragraph separator, and takes at most 8192
-- bytes in UTF-8.
pub format-IsInline :
    (u : Unicode) (service : Chars) (r : Record)
    → ((c : ℕ) → 32 ≤ c → c ≤ 126 → u.is_control c ≡ false)
    → All IsPrintable r.stamp
    → All IsPrintable service
    → All (IsInline u) (format u service r) × (utf8_size (format u service r) ≤ 8192)
unfolding format whole_line
format-IsInline u service r ascii stamp name = (
  All-fit (IsInline u) 8192 _ (
      with_fields-IsInline u ascii _ _
        (append r.stamp _ (inline r.stamp stamp) (
          append bar _ bars (
            append (one_line u 16 r.level_name) _ (shown 16 r.level_name) (
              append bar _ bars (
                append service _ (inline service name) (
                  append (codes "/") _ (inline (codes "/") (omega arith)) (
                    append (one_line u 128 r.name) _ (shown 128 r.name)
                      (append bar _ bars (shown 4096 r.message)))))))))
        (All-join_fields (IsInline u) (codes " ") _ (inline (codes " ") (omega arith))
          (fields_of-IsInline u ascii context_fields _ context_fields-Printable))),
  utf8_size-fit 8192 (whole_line u service r),
)
  where
    bar : Chars
    bar = codes " | "

    append :
        (xs ys : Chars) → All (IsInline u) xs → All (IsInline u) ys → All (IsInline u) (xs ++ ys)
    append = All-append (IsInline u)

    inline : (cs : Chars) → All IsPrintable cs → All (IsInline u) cs
    inline = printable-IsInline u ascii

    shown : (limit : ℕ) (v : Value) → All (IsInline u) (one_line u limit v)
    shown = one_line-IsInline u ascii

    bars : All (IsInline u) bar
    bars = inline bar (omega arith)
