-- ===== src/Logging/Format.antt =====
-- The line that a record of the log becomes (src/xian_dex_automation/logging_setup.py,
-- `ServiceFormatter`). The message of the record, its printed time and the fields that describe an
-- exception are parameters.
pub mod Bounded
use xian_dex_automation.Base.{
  ℕ, ◌+◌, ◌-◌, String, Bool, true, false, ◌&&◌, ◌||◌, List, [], ◌∷◌, ◌++◌, Option, none, some, ltb,
  leb, ◌==◌, if◌then◌else◌, str_eq, Dict, lookup, insert,
}
use xian_dex_automation.Config.Validation.{codes}
use xian_dex_automation.Logging.Line.{
  Chars, Value, Unicode, safe_scalar, printed, again, one_line_text, one_line,
}

-- `CONTEXT_FIELDS`.
abbrev pub context_fields : List String
context_fields =
    "pid" ∷ "event" ∷ "reason" ∷ "operation" ∷ "request_id" ∷ "tool" ∷ "rule_id" ∷ "pair_id"
    ∷ "tx_hash" ∷ "chain_id" ∷ "retry_seconds" ∷ "config_generation" ∷ "attempts" ∷ "suppressed"
    ∷ "error_type" ∷ "errno" ∷ "status_code" ∷ "error_trace" ∷ []

-- `[A-Za-z0-9_.:/-]`
is_bare : ℕ → Bool
is_bare c =
    (leb b'A' c && leb c b'Z')
    || (leb b'a' c && leb c b'z')
    || (leb b'0' c && leb c b'9')
    || c == b'_'
    || c == b'.'
    || c == b':'
    || c == b'/'
    || c == b'-'

all_bare : Chars → Bool
unfolding is_bare
all_bare [] = true
all_bare (c ∷ cs) = is_bare c && all_bare cs

is_plain_word : Chars → Bool
unfolding all_bare
is_plain_word [] = false
is_plain_word (c ∷ cs) = all_bare (c ∷ cs)

field : String → Chars → Chars
unfolding is_plain_word
field key t =
    if is_plain_word t
    then codes key ++ (b'=' ∷ t)
    else codes key ++ (b'=' ∷ b'"' ∷ t ++ (b'"' ∷ []))

join_fields : Chars → List Chars → Chars
join_fields separator [] = []
join_fields separator (x ∷ []) = x
join_fields separator (x ∷ y ∷ rest) = x ++ (separator ++ join_fields separator (y ∷ rest))

-- What `format` reads of a record: its fields, its message as `_message` gives it, its time as it is
-- printed, and the fields of `exception_context`.
pub record Record : Type 0 where
  pub level_name : Value
  pub name : Value
  pub message : Value
  pub stamp : Chars
  pub process : Value
  pub fields : Dict Value
  pub exception : Dict Value

-- `dict.update`.
updated : Dict Value → Dict Value → Dict Value
updated context [] = context
updated context ((key, value) ∷ rest) = updated (insert key value context) rest

-- The number of bytes of a character in UTF-8, and the longest prefix that fits.
utf8_width : ℕ → ℕ
utf8_width c = if ltb c 128 then 1 else if ltb c 2048 then 2 else if ltb c 65536 then 3 else 4

unfoldable pub utf8_size : Chars → ℕ
unfolding utf8_width
utf8_size [] = 0
utf8_size (c ∷ cs) = utf8_width c + utf8_size cs

fit : ℕ → Chars → Chars
unfolding utf8_width
fit n [] = []
fit n (c ∷ cs) =
    let rest = fit (n - utf8_width c) cs in if leb (utf8_width c) n then c ∷ rest else []

module _ (u : Unicode) where
  field_of : String → Option Value → List Chars
  unfolding field again
  field_of key none = []
  field_of key (some v) =
      let limit = if str_eq key "error_trace" then 2048 else 256 in
      field key (one_line_text u (printed (again 2048 (safe_scalar limit v)))) ∷ []

  -- `_context_fields`, before they are join_fields.
  fields_of : List String → Dict Value → List Chars
  unfolding field_of
  fields_of [] context = []
  fields_of (key ∷ keys) context = field_of key (lookup key context) ++ fields_of keys context

  with_fields : Chars → Chars → Chars
  with_fields line [] = line
  with_fields line (c ∷ fields) = line ++ (codes " | " ++ (c ∷ fields))

  -- The line before it is cut.
  whole_line : Chars → Record → Chars
  unfolding fields_of with_fields join_fields updated
  whole_line service r =
      let context = updated (insert "pid" r.process r.fields) r.exception in
      let line =
        r.stamp
        ++ (codes " | "
            ++ (one_line u 16 r.level_name
                ++ (codes " | "
                    ++ (service
                        ++ (codes "/"
                            ++ (one_line u 128 r.name
                                ++ (codes " | " ++ one_line u 4096 r.message))))))) in
      with_fields line (join_fields (codes " ") (fields_of context_fields context))

  -- `ServiceFormatter.format`.
  unfoldable pub format : Chars → Record → Chars
  unfolding whole_line fit
  format service r = fit 8192 (whole_line service r)
