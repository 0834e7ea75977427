-- ===== src/Authorization/ProcessTime.antt =====
-- lsmf/system_authorization.py `process_start_time`: field 22 of `/proc/PID/stat`, behind the last
-- closing parenthesis, whatever ASCII the command's name in the parentheses is made of.
pub mod Laws
use lsmf.Base.{
  ℕ, zero, suc, String, Bool, true, false, not, ◌&&◌, ◌||◌, List, [], ◌∷◌, ◌++◌, Option, none, some,
  ltb, leb, ◌==◌, ℤ, if◌then◌else◌, all, is_empty, get_elem?,
}
use lsmf.Base.Results.{Result, ok, err}
use lsmf.Base.Decimal.{int_of}

-- what stands behind `raw.rfind(")")`, where there is one
unfoldable pub after_close : List ℕ → Option (List ℕ)
after_close [] = none
after_close (c ∷ cs) = elim (after_close cs) [
  | some rest ↦ some rest
  | none ↦ if c == b')' then some cs else none
]

-- `c.isspace()` for an ASCII character
abbrev pub is_space : ℕ → Bool
is_space c = (leb 9 c && leb c 13) || (leb 28 c && leb c 32)

-- `text.split()`, with the word that was begun
unfoldable pub split_words : List ℕ → List ℕ → List (List ℕ)
split_words word [] = if is_empty word then [] else word ∷ []
split_words word (c ∷ cs) =
    let rest = split_words (if is_space c then [] else word ++ c ∷ []) cs in
    if is_space c && not (is_empty word) then word ∷ rest else rest

-- `if value <= 0: raise`
abbrev start_value : Option ℤ → Result ℕ
start_value none = err "process start time is malformed"
start_value (some (ℤ.pos zero)) = err "process start time is invalid"
start_value (some (ℤ.pos (suc n))) = ok (suc n)
start_value (some (ℤ.negsuc n)) = err "process start time is invalid"

-- `int(fields[19], 10)`, where there are so many
abbrev start_field : Option (List ℕ) → Result ℕ
start_field none = err "process stat record is incomplete"
start_field (some field) = start_value (int_of field)

abbrev start_fields : Option (List ℕ) → Result ℕ
start_fields none = err "process stat record is malformed"
start_fields (some suffix) = start_field (get_elem? (split_words [] suffix) 19)

-- the bytes that decode as ASCII, which is each as its own code point; `read_text` also makes one
-- newline of a carriage return, which is a space to `split` like itself
abbrev pub is_ascii : List ℕ → Bool
is_ascii raw = all (λ byte. ltb byte 128) raw

-- `process_start_time`, given the bytes that reading the file for this PID returned
unfoldable pub process_start_time : ℕ → Result (List ℕ) → Result ℕ
process_start_time zero raw = err "PID must be a positive integer"
process_start_time (suc pid) (err message) = err "process start time is unavailable"
process_start_time (suc pid) (ok raw) =
    if is_ascii raw then start_fields (after_close raw) else err "process start time is unavailable"
