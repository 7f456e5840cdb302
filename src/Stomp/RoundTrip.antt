-- ===== src/Stomp/RoundTrip.antt =====
-- A frame that is serialized and parsed again.
use mathlib.Core.List.{append_assoc, append-nil}
use iuh_exchange_be.Base.{
  ℕ, Bool, ◌≡◌, refl, ap, ◌∙◌, sym, true, false, not, some, List, [], ◌∷◌, ◌++◌, ◌==◌, arith, any,
  Bool-cases, inl, inr, map, All,
}
use iuh_exchange_be.Stomp.Codec.{
  Text, newline, colon, text_eq, is_blank_unit, trim, is_empty, is_blank, split_lines, Headers,
  proto, escape_header, replace_unit, put_header, set_header, read_header, read_headers, skip_blank,
  read_body, read_command, parse_frame, write_headers, serialize_frame,
}
use iuh_exchange_be.Stomp.Escape.{is_plain, unescape-escape}
use iuh_exchange_be.Stomp.Lines.{
  lacks, lacks-append, split_lines-append, split_colon-append, join-split, is_blank-solid,
  strip_nul-lacks,
}
use iuh_exchange_be.Stomp.Lacks.{escape_no_newline, escape_no_colon, escape_no_nul}
use iuh_exchange_be.Stomp.Stream.{cut_nul, take_frame, next_frame}

-- A header that comes back: its key is not empty and is not `__proto__`, no backslash in it stands
-- directly before a `c` or an `n`, and it has no NUL.
abbrev pub IsHeader : Text × Text → Type 0
IsHeader h =
    (is_empty h.0 ≡ false)
    × (text_eq h.0 proto ≡ false)
    × (is_plain h.0 ≡ true)
    × (is_plain h.1 ≡ true)
    × (lacks 0 h.0 ≡ true)
    × (lacks 0 h.1 ≡ true)

-- No key of the headers is the given one.
abbrev pub is_fresh : Text → Headers → Bool
is_fresh k hs = not (any (λ h. text_eq h.0 k) hs)

-- Each key differs from the given ones and from the keys before it.
abbrev pub AreFresh : Headers → Headers → Type 0
AreFresh before [] = Unit
AreFresh before (h ∷ hs) = (is_fresh h.0 before ≡ true) × AreFresh (before ++ (h ∷ [])) hs

-- A command on one line, without white space around it.
abbrev pub IsCommand : Text → Type 0
IsCommand c = (trim c ≡ c) × (is_blank c ≡ false) × (lacks newline c ≡ true) × (lacks 0 c ≡ true)

line_of : Text × Text → Text
line_of h = escape_header h.0 ++ colon ∷ escape_header h.1

-- A header line is not blank, since its colon is not.
line-solid : (k v : Text) → any (λ c. not (is_blank_unit c)) (k ++ colon ∷ v) ≡ true
unfolding is_blank_unit
line-solid [] v = refl
line-solid (c ∷ k) v = ground (arith, line-solid k v)

line-not_blank : (h : Text × Text) → is_blank (line_of h) ≡ false
unfolding line_of
line-not_blank h = is_blank-solid _ (line-solid (escape_header h.0) (escape_header h.1))

line_no_newline : (h : Text × Text) → lacks newline (line_of h) ≡ true
unfolding line_of lacks
line_no_newline h =
    lacks-append newline (escape_header h.0) (colon ∷ escape_header h.1) (escape_no_newline h.0)
      (escape_no_newline h.1)

replace-full :
    (x y : ℕ) (new s : Text) → is_empty s ≡ false → is_empty (replace_unit x (y ∷ new) s) ≡ false
unfolding replace_unit is_empty
replace-full x y new [] h = cc
replace-full x y new (c ∷ s) h = elim (Bool-cases (c == x)) [
  | inl hit ↦ rw hit refl
  | inr other ↦ rw other refl
]

empty-escape : (s : Text) → is_empty s ≡ false → is_empty (escape_header s) ≡ false
unfolding escape_header
empty-escape s h =
    replace-full colon 92 (99 ∷ []) _
      (replace-full newline 92 (110 ∷ []) _ (replace-full 92 92 (92 ∷ []) s h))

put_header-fresh :
    (k v : Text) (hs : Headers) → is_fresh k hs ≡ true → put_header k v hs ≡ hs ++ ((k, v) ∷ [])
unfolding put_header
put_header-fresh k v [] fresh = refl
put_header-fresh k v ((j, w) ∷ hs) fresh = elim (Bool-cases (text_eq j k)) [
  | inl hit ↦ cc (rw hit at fresh)
  | inr other ↦ rw other (ap (λ t. (j, w) ∷ t) (put_header-fresh k v hs (rw other at fresh)))
]

read_header-line :
    (h : Text × Text) (acc : Headers)
    → IsHeader h
    → is_fresh h.0 acc ≡ true
    → read_header (line_of h) acc ≡ acc ++ (h ∷ [])
unfolding read_header line_of set_header
read_header-line h acc (full, named, plain, plain', nul, nul') fresh =
    rw
      (
        split_colon-append (escape_header h.0) (escape_header h.1) (escape_no_colon h.0),
        empty-escape h.0 full,
        unescape-escape h.0 plain,
        unescape-escape h.1 plain',
        named,
      )
      (put_header-fresh h.0 h.1 acc fresh)

read_headers-lines :
    (hs acc : Headers) (ls : List Text)
    → All IsHeader hs
    → AreFresh acc hs
    → read_headers (map line_of hs ++ [] ∷ ls) acc ≡ (acc ++ hs, ls)
unfolding read_headers
read_headers-lines [] acc ls good fresh = ap (λ hs. (hs, ls)) (sym (append-nil acc))
read_headers-lines (h ∷ hs) acc ls good fresh =
    rw
      (
        line-not_blank h,
        read_header-line h acc good.0 fresh.0,
        read_headers-lines hs (acc ++ (h ∷ [])) ls good.1 fresh.1,
      )
      (ap (λ hs'. (hs', ls)) (append_assoc acc (h ∷ []) hs))

-- The first line of the headers, and what follows it.
headers-append :
    (k v w t : Text)
    → (escape_header k ++ colon ∷ (escape_header v ++ newline ∷ w)) ++ t
      ≡ line_of (k, v) ++ newline ∷ (w ++ t)
unfolding line_of
headers-append k v w t =
    append_assoc (escape_header k) (colon ∷ (escape_header v ++ newline ∷ w)) t
    ∙ ap (λ r. escape_header k ++ colon ∷ r) (append_assoc (escape_header v) (newline ∷ w) t)
    ∙ sym (append_assoc (escape_header k) (colon ∷ escape_header v) (newline ∷ (w ++ t)))

split-headers :
    (hs : Headers) (t : Text)
    → split_lines (write_headers hs ++ newline ∷ t) ≡ map line_of hs ++ [] ∷ split_lines t
unfolding write_headers lacks line_of
split-headers [] t = split_lines-append [] t refl
split-headers ((k, v) ∷ hs) t =
    ap split_lines (headers-append k v (write_headers hs) (newline ∷ t))
    ∙ split_lines-append (line_of (k, v)) (write_headers hs ++ newline ∷ t) (line_no_newline (k, v))
    ∙ ap (λ ls. line_of (k, v) ∷ ls) (split-headers hs t)

lacks-headers : (hs : Headers) → All IsHeader hs → lacks 0 (write_headers hs) ≡ true
unfolding write_headers lacks
lacks-headers [] good = refl
lacks-headers ((k, v) ∷ hs) ((full, named, plain, plain', nul, nul'), good) =
    lacks-append 0 (escape_header k) (colon ∷ (escape_header v ++ newline ∷ write_headers hs))
      (escape_no_nul k nul)
      (lacks-append 0 (escape_header v) (newline ∷ write_headers hs) (escape_no_nul v nul')
        (lacks-headers hs good))

skip_blank-solid : (l : Text) (ls : List Text) → is_blank l ≡ false → skip_blank (l ∷ ls) ≡ l ∷ ls
unfolding skip_blank
skip_blank-solid l ls solid = rw solid refl

parse-written :
    (c : Text) (hs : Headers) (b : Text)
    → IsCommand c
    → All IsHeader hs
    → AreFresh [] hs
    → lacks 0 b ≡ true
    → parse_frame (c ++ newline ∷ (write_headers hs ++ newline ∷ b))
      ≡ record { command = c; headers = hs; body = b }
unfolding parse_frame read_command read_body
parse-written c hs b (trimmed, solid, line, nul) good fresh clean =
    ap (λ ls. read_command (skip_blank ls))
      (split_lines-append c (write_headers hs ++ newline ∷ b) line
        ∙ ap (λ ls. c ∷ ls) (split-headers hs b))
    ∙ ap read_command (skip_blank-solid c (map line_of hs ++ [] ∷ split_lines b) solid)
    ∙ ap (read_body (trim c)) (read_headers-lines hs [] (split_lines b) good fresh)
    ∙ rw (join-split b, strip_nul-lacks b clean, trimmed) refl

cut_nul-append : (s rest : Text) → lacks 0 s ≡ true → cut_nul (s ++ 0 ∷ rest) ≡ some (s, rest)
unfolding cut_nul lacks
cut_nul-append [] rest p = refl
cut_nul-append (c ∷ s) rest p = elim (Bool-cases (c == 0)) [
  | inl hit ↦ cc (rw hit at p)
  | inr other ↦ rw (other, cut_nul-append s rest (rw other at p)) refl
]

serialize-append :
    (c : Text) (hs : Headers) (b rest : Text)
    → serialize_frame c hs b ++ rest
      ≡ (c ++ newline ∷ (write_headers hs ++ newline ∷ b)) ++ 0 ∷ rest
unfolding serialize_frame
serialize-append c hs b rest = simp append_assoc

-- A frame comes back as it was sent, and what follows it in the buffer is left there, where the
-- command is one line that is not blank, without white space around it; the headers' keys differ,
-- are not empty and are not `__proto__`; in no key or value a backslash stands directly before a `c`
-- or an `n`; and nothing has a NUL.
pub next-serialize :
    (c : Text) (hs : Headers) (b rest : Text)
    → IsCommand c
    → All IsHeader hs
    → AreFresh [] hs
    → lacks 0 b ≡ true
    → next_frame (serialize_frame c hs b ++ rest)
      ≡ (some (record { command = c; headers = hs; body = b }), rest)
unfolding next_frame take_frame lacks
next-serialize c hs b rest command good fresh clean =
    let raw = c ++ newline ∷ (write_headers hs ++ newline ∷ b) in
    let no_nul =
      lacks-append 0 c (newline ∷ (write_headers hs ++ newline ∷ b)) command.3
        (lacks-append 0 (write_headers hs) (newline ∷ b) (lacks-headers hs good) clean) in
    ap (λ t. take_frame t (cut_nul t)) (serialize-append c hs b rest)
    ∙ ap (take_frame (raw ++ 0 ∷ rest)) (cut_nul-append raw rest no_nul)
    ∙ ap (λ f. (some f, rest)) (parse-written c hs b command good fresh clean)
