-- ===== src/Logging/Line/OneLine.antt =====
-- What `one_line` writes holds no control character and no separator (logging_setup.py).
use xian_dex_automation.Base.{
  ℕ, zero, suc, ◌/◌, ◌%◌, ◌≤◌, false, List, [], ◌∷◌, ◌++◌, ◌≡◌, ◌≢◌, inl, inr, arith, All,
  Bool-cases, leb,
}
use xian_dex_automation.Logging.Line.{
  Chars, Value, Unicode, digit, hex_digits, is_escaped, escape_character, escape_all, one_line_text,
  one_line,
}

-- A printable character of ASCII.
abbrev pub IsPrintable : ℕ → Type 0
IsPrintable c = (32 ≤ c) × (c ≤ 126)

-- No control character, no line or paragraph separator and no bar.
abbrev pub IsPlain : Unicode → ℕ → Type 0
IsPlain u c = (u.is_control c ≡ false) × (c ≢ 8232) × (c ≢ 8233) × (c ≢ b'|')

pub All-append {ℓ} :
    {A : Type ℓ} (P : A → Type 0) (xs ys : List A) → All P xs → All P ys → All P (xs ++ ys)
All-append P [] ys h k = k
All-append P (x ∷ xs) ys h k = (h.0, All-append P xs ys h.1 k)

digit-Printable : (n : ℕ) → (48 ≤ digit (n % 16)) × (digit (n % 16) ≤ 102)
unfolding digit
digit-Printable n = ground arith

module _ (u : Unicode) (ascii : (c : ℕ) → 32 ≤ c → c ≤ 126 → u.is_control c ≡ false) where
  small-IsPlain : (c : ℕ) → 48 ≤ c → c ≤ 117 → IsPlain u c
  small-IsPlain c h k = (ascii c (omega arith) (omega arith), omega arith, omega arith, omega arith)

  hex_digits-IsPlain : (k n : ℕ) → All (IsPlain u) (hex_digits k n)
  unfolding hex_digits
  hex_digits-IsPlain zero n = tt
  hex_digits-IsPlain (suc k) n =
      let (low, high) = digit-Printable n in
      All-append (IsPlain u) (hex_digits k (n / 16)) _ (hex_digits-IsPlain k (n / 16))
        (small-IsPlain (digit (n % 16)) low (omega arith), tt)

  kept-IsPlain : (c : ℕ) → is_escaped u c ≡ false → IsPlain u c
  unfolding is_escaped
  kept-IsPlain c h = ground arith

  backslash : IsPlain u 92
  backslash = small-IsPlain 92 (omega arith) (omega arith)

  escape_character-IsPlain : (c : ℕ) → All (IsPlain u) (escape_character u c)
  unfolding escape_character
  escape_character-IsPlain c = elim (Bool-cases (is_escaped u c)) [
    | inl e ↦ elim (Bool-cases (leb c 65535)) [
      | inl k ↦
          let mark = small-IsPlain b'u' (omega arith) (omega arith) in
          rw (e, k) (backslash, (mark, hex_digits-IsPlain 4 c))
      | inr k ↦
          let mark = small-IsPlain b'U' (omega arith) (omega arith) in
          rw (e, k) (backslash, (mark, hex_digits-IsPlain 8 c))
    ]
    | inr e ↦ rw e (kept-IsPlain c e, tt)
  ]

  escape_all-IsPlain : (cs : Chars) → All (IsPlain u) (escape_all u cs)
  unfolding escape_all
  escape_all-IsPlain [] = tt
  escape_all-IsPlain (c ∷ cs) =
      All-append (IsPlain u) (escape_character u c) _ (escape_character-IsPlain c)
        (escape_all-IsPlain cs)

  pub one_line_text-IsPlain : (s : Chars) → All (IsPlain u) (one_line_text u s)
  unfolding one_line_text
  one_line_text-IsPlain s = escape_all-IsPlain _

-- If the printable characters of ASCII are no control characters, then whatever the value and the
-- limit, `one_line` gives a text without control characters, line and paragraph separators and bars.
pub one_line-IsPlain :
    (u : Unicode) (limit : ℕ) (v : Value)
    → ((c : ℕ) → 32 ≤ c → c ≤ 126 → u.is_control c ≡ false)
    → All (IsPlain u) (one_line u limit v)
unfolding one_line
one_line-IsPlain u limit v ascii = one_line_text-IsPlain u ascii _
