-- ===== src/Stomp/Tests.antt =====
-- Runs of the STOMP frames on concrete texts.
use iuh_exchange_be.Base.{◌≡◌, refl, true, false, some, [], ◌∷◌, ◌++◌, map, length, arith}
use iuh_exchange_be.Stomp.Codec.{
  Text, parse_frame, serialize_frame, escape_header, unescape_header, replace_unit, replace_pair,
  trim, trim_start, trim_end, is_blank, is_blank_unit, is_empty, text_eq,
}
use iuh_exchange_be.Stomp.Escape.{is_plain}
use iuh_exchange_be.Stomp.Lines.{lacks}
use iuh_exchange_be.Stomp.RoundTrip.{IsCommand, IsHeader, next-serialize}
use iuh_exchange_be.Stomp.Stream.{has_frames, next_frame, drain, Inbox, receive}
use iuh_exchange_be.Stomp.Stream.Complete.{stream_of, drain-terminates}
use iuh_exchange_be.Stomp.Stream.Refine.{taken_in, receive_refines, total_exhausted}

-- `SEND`
abbrev send : Text
send = 83 ∷ 69 ∷ 78 ∷ 68 ∷ []

-- `a:\`, which has a colon and a backslash, and `é`
abbrev key : Text
key = 97 ∷ 58 ∷ 92 ∷ []

abbrev value : Text
value = 233 ∷ 10 ∷ []

abbrev body : Text
body = 123 ∷ 10 ∷ 125 ∷ []

send-IsCommand : IsCommand send
unfolding trim trim_start trim_end is_blank is_blank_unit is_empty lacks
send-IsCommand = (refl, refl, refl, refl)

key-IsHeader : IsHeader (key, value)
unfolding is_empty text_eq is_plain lacks
key-IsHeader = (refl, refl, refl, refl, refl, refl)

body_clean : lacks 0 body ≡ true
unfolding lacks
body_clean = refl

next-serialize_example :
    next_frame (serialize_frame send ((key, value) ∷ []) body ++ 83 ∷ [])
    ≡ (some (record { command = send; headers = (key, value) ∷ []; body = body }), 83 ∷ [])
next-serialize_example =
    next-serialize send ((key, value) ∷ []) body (83 ∷ []) send-IsCommand (key-IsHeader, tt)
      (refl, tt) body_clean

-- A backslash before a `c` does not come back: it becomes a colon.
backslash_lost : unescape_header (escape_header (92 ∷ 99 ∷ [])) ≡ 92 ∷ 58 ∷ []
unfolding escape_header unescape_header replace_unit replace_pair
backslash_lost = refl

-- The message `A`, a NUL and `B`, then `C` and a NUL.
abbrev first : Text
first = 65 ∷ 0 ∷ 66 ∷ []

abbrev second : Text
second = 67 ∷ 0 ∷ []

abbrev fresh : Inbox
fresh = record { buffer = []; total = 0; frames = []; closed = false }

drain-terminates_example :
    (drain 9 first ≡ drain 3 first)
    × (has_frames (drain 9 first).1 ≡ false)
    × ((drain 9 first).0 ≡ map parse_frame (stream_of first).complete)
drain-terminates_example = drain-terminates 9 first (omega arith)

solid : (is_blank first ≡ false) × (is_blank second ≡ false)
unfolding is_blank trim trim_start trim_end is_blank_unit is_empty
solid = (refl, refl)

nothing_left : has_frames fresh.buffer ≡ false
unfolding has_frames
nothing_left = refl

receive_refines_example :
    receive length (first ∷ second ∷ []) fresh ≡ taken_in length (first ∷ second ∷ []) fresh
receive_refines_example =
    receive_refines length (first ∷ second ∷ []) fresh (solid.0, (solid.1, tt)) (omega arith)
      nothing_left

two_frames : (stream_of (first ++ second)).complete ≡ (65 ∷ []) ∷ (66 ∷ 67 ∷ []) ∷ []
unfolding stream_of
two_frames = refl

abbrev used_up : Inbox
used_up = record { buffer = []; total = 1048576; frames = []; closed = false }

total_exhausted_example :
    ((receive length (second ∷ first ∷ []) used_up).buffer ≡ [])
    × ((receive length (second ∷ first ∷ []) used_up).frames ≡ [])
    × ((receive length (second ∷ first ∷ []) used_up).closed ≡ true)
total_exhausted_example =
    total_exhausted length second (first ∷ []) used_up (solid.1, (solid.0, tt)) (omega arith)
