-- ===== src/Config/Lines.antt =====
-- What Python makes of a text file's lines: the reading of newlines, `splitlines` and `strip`.
use lsmf.Base.{ℕ, Bool, ◌&&◌, ◌||◌, List, [], ◌∷◌, ◌++◌, leb, ◌==◌, if◌then◌else◌, is_empty}
use lsmf.Config.Values.{Text}

-- `read_text`: a carriage return, with a newline behind it or not, is read as a newline. The first
-- argument says if the character before was one.
unfoldable pub universal : Bool → Text → Text
universal after [] = []
universal after (c ∷ cs) =
    let rest = universal (c == b'\r') cs in
    if c == b'\r' then b'\n' ∷ rest else if after && c == b'\n' then rest else c ∷ rest

-- the characters at which `splitlines` ends a line
abbrev pub is_break : ℕ → Bool
is_break c =
    (leb 10 c && leb c 13) || (leb 28 c && leb c 30) || c == 0x85 || c == 0x2028 || c == 0x2029

-- `text.splitlines()`, with the line that was begun, of a text without carriage returns
unfoldable pub split_lines : Text → Text → List Text
split_lines line [] = if is_empty line then [] else line ∷ []
split_lines line (c ∷ cs) =
    let rest = split_lines (if is_break c then [] else line ++ c ∷ []) cs in
    if is_break c then line ∷ rest else rest

-- `c.isspace()`
abbrev pub is_white : ℕ → Bool
is_white c =
    (leb 9 c && leb c 13)
    || (leb 28 c && leb c 32)
    || c == 0x85
    || c == 0xa0
    || c == 0x1680
    || (leb 0x2000 c && leb c 0x200a)
    || c == 0x2028
    || c == 0x2029
    || c == 0x202f
    || c == 0x205f
    || c == 0x3000

unfoldable pub strip_left : Text → Text
strip_left [] = []
strip_left (c ∷ cs) = let rest = strip_left cs in if is_white c then rest else c ∷ cs

unfoldable pub strip_right : Text → Text
strip_right [] = []
strip_right (c ∷ cs) =
    let rest = strip_right cs in if is_empty rest && is_white c then [] else c ∷ rest

-- `text.strip()`
unfoldable pub strip : Text → Text
unfolding strip_left strip_right
strip text = strip_right (strip_left text)
