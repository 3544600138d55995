-- ===== src/Logging/Line.antt =====
-- A value on one line of the log (src/xian_dex_automation/logging_setup.py, `one_line` and its
-- helpers). A text is the list of its code points. The general category of
-- a character, which code points are spaces, and how a number is printed are parameters.
pub mod OneLine
use xian_dex_automation.Base.{
  ℕ, zero, suc, ◌+◌, ◌-◌, ◌*◌, ◌/◌, ◌%◌, ◌≤◌, ◌<◌, String, Bool, true, false, not, ◌&&◌, ◌||◌, List,
  [], ◌∷◌, ◌++◌, Option, none, some, ltb, leb, ◌==◌, take, if◌then◌else◌, str_eq, Dict, lookup,
  insert,
}
use xian_dex_automation.Config.Validation.{codes}

abbrev pub Chars : Type 0
Chars = List ℕ

-- A value of a record: an integer with its bit length, a float with whether it is finite, each as it
-- is printed; and any other object, by the name of its type.
pub data Value : Type 0 where
  text : Chars → Value
  whole : ℕ → Chars → Value
  real : Bool → Chars → Value
  nothing : Value
  truth : Bool → Value
  object : Chars → Value

-- What `safe_scalar` returns.
pub data Scalar : Type 0 where
  a_text : Chars → Scalar
  a_number : Chars → Scalar
  no_value : Scalar
  a_truth : Bool → Scalar

pub record Unicode : Type 0 where
  pub is_control : ℕ → Bool
  pub is_space : ℕ → Bool

unfoldable pub safe_scalar : ℕ → Value → Scalar
safe_scalar limit (text s) = a_text (take limit s)
safe_scalar limit (whole bit_length s) =
    if leb bit_length 256 then a_number s else a_text (codes "<large-int>")
safe_scalar limit (real finite s) =
    if finite then a_number s else a_text (codes "<nonfinite-float>")
safe_scalar limit nothing = no_value
safe_scalar limit (truth b) = a_truth b
safe_scalar limit (object name) = a_text (codes "<" ++ (take 64 name ++ codes ">"))

-- `str`, and `safe_scalar` of a value that it has returned.
unfoldable pub printed : Scalar → Chars
printed (a_text s) = s
printed (a_number s) = s
printed no_value = codes "None"
printed (a_truth true) = codes "True"
printed (a_truth false) = codes "False"

unfoldable pub again : ℕ → Scalar → Scalar
again limit (a_text s) = a_text (take limit s)
again limit v = v

-- What follows this prefix.
strip_prefix : Chars → Chars → Option Chars
strip_prefix [] cs = some cs
strip_prefix (p ∷ ps) [] = none
strip_prefix (p ∷ ps) (c ∷ cs) = let rest = strip_prefix ps cs in if c == p then rest else none

-- `_escape_character` and `json.dumps` write a code in hexadecimal.
digit : ℕ → ℕ
digit n = if ltb n 10 then 48 + n else 87 + n

hex_digits : ℕ → ℕ → Chars
unfolding digit
hex_digits zero n = []
hex_digits (suc k) n = hex_digits k (n / 16) ++ (digit (n % 16) ∷ [])

-- The escapes of `json.dumps(text, ensure_ascii=False)`.
json_character : ℕ → Chars
unfolding hex_digits
json_character c =
    if c == b'"' || c == 92
    then 92 ∷ c ∷ []
    else if c == 10
    then 92 ∷ b'n' ∷ []
    else if c == 13
    then 92 ∷ b'r' ∷ []
    else if c == 9
    then 92 ∷ b't' ∷ []
    else if c == 12
    then 92 ∷ b'f' ∷ []
    else if c == 8
    then 92 ∷ b'b' ∷ []
    else if ltb c 32
    then 92 ∷ b'u' ∷ hex_digits 4 c
    else c ∷ []

json_text : Chars → Chars
unfolding json_character
json_text [] = []
json_text (c ∷ cs) = json_character c ++ json_text cs

module _ (u : Unicode) where
  -- The rest of the scheme fits, and something follows that is no space.
  is_address : Option Chars → Bool
  is_address none = false
  is_address (some []) = false
  is_address (some (c ∷ cs)) = not (u.is_space c)

  -- `https?://[^\s]+` matches here.
  starts_address : Chars → Bool
  unfolding is_address strip_prefix
  starts_address cs =
      is_address (strip_prefix (codes "http://") cs)
      || is_address (strip_prefix (codes "https://") cs)

  -- `re.sub(r"https?://[^\s]+", "<endpoint>", text)`; the flag is set inside a match.
  redact : Bool → Chars → Chars
  unfolding starts_address
  redact inside [] = []
  redact true (c ∷ cs) =
      let rest = redact (not (u.is_space c)) cs in if u.is_space c then c ∷ rest else rest
  redact false (c ∷ cs) =
      let here = starts_address (c ∷ cs) in
      let rest = redact here cs in if here then codes "<endpoint>" ++ rest else c ∷ rest

  is_escaped : ℕ → Bool
  is_escaped c = u.is_control c || c == 8232 || c == 8233 || c == b'|'

  unfoldable pub escape_character : ℕ → Chars
  unfolding is_escaped hex_digits
  escape_character c =
      if is_escaped c
      then (if leb c 65535 then 92 ∷ b'u' ∷ hex_digits 4 c else 92 ∷ b'U' ∷ hex_digits 8 c)
      else c ∷ []

  escape_all : Chars → Chars
  unfolding escape_character
  escape_all [] = []
  escape_all (c ∷ cs) = escape_character c ++ escape_all cs

  -- `one_line` after `str(safe_scalar(...))`.
  unfoldable pub one_line_text : Chars → Chars
  unfolding redact json_text escape_all
  one_line_text s = escape_all (json_text (redact false s))

  unfoldable pub one_line : ℕ → Value → Chars
  unfolding printed
  one_line limit v = one_line_text (printed (safe_scalar limit v))
