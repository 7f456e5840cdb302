-- ===== src/Stomp/Codec.antt =====
-- `parseFrame`, `serializeFrame`, `escapeHeader` and `unescapeHeader` of stomp-parser.js.
use iuh_exchange_be.Base.{
  ℕ, Bool, true, false, not, ◌&&◌, ◌||◌, List, [], ◌∷◌, ◌++◌, ◌==◌, leb, if◌then◌else◌,
}

abbrev pub Text : Type 0
Text = List ℕ

abbrev pub newline : ℕ
newline = 10

abbrev pub colon : ℕ
colon = 58

abbrev pub backslash : ℕ
backslash = 92

unfoldable pub text_eq : Text → Text → Bool
text_eq [] [] = true
text_eq [] (y ∷ ys) = false
text_eq (x ∷ xs) [] = false
text_eq (x ∷ xs) (y ∷ ys) = (x == y) && text_eq xs ys

-- What `trim` removes: white space and line ends.
unfoldable pub is_blank_unit : ℕ → Bool
is_blank_unit c =
    leb 9 c && leb c 13
    || c == 32
    || c == 160
    || c == 5760
    || leb 8192 c && leb c 8202
    || c == 8232
    || c == 8233
    || c == 8239
    || c == 8287
    || c == 12288
    || c == 65279

unfoldable pub trim_start : Text → Text
unfolding is_blank_unit
trim_start [] = []
trim_start (c ∷ s) = let rest = trim_start s in if is_blank_unit c then rest else c ∷ s

unfoldable pub is_empty : Text → Bool
is_empty [] = true
is_empty (_ ∷ _) = false

unfoldable pub trim_end : Text → Text
unfolding is_blank_unit is_empty
trim_end [] = []
trim_end (c ∷ s) =
    let rest = trim_end s in if is_empty rest && is_blank_unit c then [] else c ∷ rest

unfoldable pub trim : Text → Text
unfolding trim_start trim_end
trim s = trim_end (trim_start s)

-- `line.trim() === ''`
unfoldable pub is_blank : Text → Bool
unfolding trim is_empty
is_blank s = is_empty (trim s)

-- `raw.split('\n')`: the first line and the lines after it.
unfoldable pub split_first : Text → Text × List Text
split_first [] = ([], [])
split_first (c ∷ s) =
    let rest = split_first s in if c == newline then ([], rest.0 ∷ rest.1) else (c ∷ rest.0, rest.1)

unfoldable pub split_lines : Text → List Text
unfolding split_first
split_lines s = let parts = split_first s in parts.0 ∷ parts.1

-- `lines.join('\n')`
unfoldable pub join_after : Text → List Text → Text
join_after l [] = l
join_after l (k ∷ ls) = l ++ newline ∷ join_after k ls

unfoldable pub join_lines : List Text → Text
unfolding join_after
join_lines [] = []
join_lines (l ∷ ls) = join_after l ls

-- `str.replace(/x/g, with)`
unfoldable pub replace_unit : ℕ → Text → Text → Text
replace_unit x new [] = []
replace_unit x new (c ∷ s) =
    let rest = replace_unit x new s in if c == x then new ++ rest else c ∷ rest

-- `str.replace(/ab/g, c)`, from the left and without overlap.
unfoldable pub replace_pair : ℕ → ℕ → ℕ → Text → Text
replace_pair a b new [] = []
replace_pair a b new (x ∷ []) = x ∷ []
replace_pair a b new (x ∷ y ∷ s) =
    let hit = replace_pair a b new s in
    let miss = replace_pair a b new (y ∷ s) in if (x == a) && (y == b) then new ∷ hit else x ∷ miss

unfoldable pub escape_header : Text → Text
unfolding replace_unit
escape_header s = replace_unit colon (backslash ∷ 99 ∷ []) (
    replace_unit newline (backslash ∷ 110 ∷ [])
      (replace_unit backslash (backslash ∷ backslash ∷ []) s))

unfoldable pub unescape_header : Text → Text
unfolding replace_pair
unescape_header s =
    replace_pair backslash backslash backslash
      (replace_pair backslash 110 newline (replace_pair backslash 99 colon s))

-- The own properties of the object `headers`, in the order in which they were first set.
abbrev pub Headers : Type 0
Headers = List (Text × Text)

-- `__proto__`
abbrev pub proto : Text
proto = 95 ∷ 95 ∷ 112 ∷ 114 ∷ 111 ∷ 116 ∷ 111 ∷ 95 ∷ 95 ∷ []

unfoldable pub put_header : Text → Text → Headers → Headers
unfolding text_eq
put_header k v [] = (k, v) ∷ []
put_header k v ((j, w) ∷ hs) =
    let rest = put_header k v hs in if text_eq j k then (j, v) ∷ hs else (j, w) ∷ rest

-- `headers[key] = value`: a text as the prototype is ignored.
unfoldable pub set_header : Text → Text → Headers → Headers
unfolding put_header text_eq
set_header k v hs = if text_eq k proto then hs else put_header k v hs

-- The text before the first colon, and after it, where there is one.
unfoldable pub split_colon : Text → Text × Text × Bool
split_colon [] = ([], [], false)
split_colon (c ∷ s) =
    let rest = split_colon s in if c == colon then ([], s, true) else (c ∷ rest.0, rest.1, rest.2)

-- A header line: `colonIdx > 0`.
unfoldable pub read_header : Text → Headers → Headers
unfolding split_colon is_empty unescape_header set_header
read_header line hs =
    let parts = split_colon line in
    if parts.2 && not (is_empty parts.0)
    then set_header (unescape_header parts.0) (unescape_header parts.1) hs
    else hs

-- The loop on the headers, up to a blank line.
unfoldable pub read_headers : List Text → Headers → Headers × List Text
unfolding read_header is_blank
read_headers [] hs = (hs, [])
read_headers (l ∷ ls) hs =
    let rest = read_headers ls (read_header l hs) in if is_blank l then (hs, ls) else rest

-- The loop on the blank lines before the command.
unfoldable pub skip_blank : List Text → List Text
unfolding is_blank
skip_blank [] = []
skip_blank (l ∷ ls) = let rest = skip_blank ls in if is_blank l then rest else l ∷ ls

-- `remaining.replace(/\0$/, '')`
unfoldable pub strip_nul : Text → Text
strip_nul [] = []
strip_nul (c ∷ []) = if c == 0 then [] else c ∷ []
strip_nul (c ∷ d ∷ s) = c ∷ strip_nul (d ∷ s)

pub record Frame : Type 0 where
  pub command : Text
  pub headers : Headers
  pub body : Text

unfoldable pub read_body : Text → Headers × List Text → Frame
unfolding strip_nul join_lines
read_body command (hs, ls) = record {
  command = command;
  headers = hs;
  body = strip_nul (join_lines ls);
}

unfoldable pub read_command : List Text → Frame
unfolding trim read_headers read_body
read_command [] = read_body [] ([], [])
read_command (l ∷ ls) = read_body (trim l) (read_headers ls [])

unfoldable pub parse_frame : Text → Frame
unfolding skip_blank split_lines read_command
parse_frame raw = read_command (skip_blank (split_lines raw))

unfoldable pub write_headers : Headers → Text
unfolding escape_header
write_headers [] = []
write_headers ((k, v) ∷ hs) =
    escape_header k ++ colon ∷ (escape_header v ++ newline ∷ write_headers hs)

unfoldable pub serialize_frame : Text → Headers → Text → Text
unfolding write_headers
serialize_frame command headers body =
    command ++ newline ∷ (write_headers headers ++ newline ∷ (body ++ 0 ∷ []))
