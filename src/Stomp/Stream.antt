-- ===== src/Stomp/Stream.antt =====
-- `FrameAccumulator` of stomp-parser.js, and the loop over it in
-- packages/ws-gateway/src/services/socket.service.js.
pub mod Complete
pub mod Refine
use iuh_exchange_be.Base.{
  ℕ, zero, suc, Bool, true, false, Option, none, some, List, [], ◌∷◌, ◌++◌, ◌==◌, if◌then◌else◌,
  length, ltb, ◌+◌,
}
use iuh_exchange_be.Stomp.Codec.{Text, Frame, parse_frame, is_blank}

-- `buffer.includes('\0')`
unfoldable pub has_frames : Text → Bool
has_frames [] = false
has_frames (c ∷ s) = let rest = has_frames s in if c == 0 then true else rest

-- The texts before and after the first NUL.
unfoldable pub cut_nul : Text → Option (Text × Text)
cut_nul [] = none
cut_nul (c ∷ s) =
    let rest = cut_nul s in
    if c == 0
    then some ([], s)
    else elim rest [ none ↦ none | some (raw, left) ↦ some (c ∷ raw, left) ]

unfoldable pub take_frame : Text → Option (Text × Text) → Option Frame × Text
unfolding parse_frame
take_frame buffer none = (none, buffer)
take_frame buffer (some (raw, left)) = (some (parse_frame raw), left)

unfoldable pub next_frame : Text → Option Frame × Text
unfolding take_frame cut_nul
next_frame buffer = take_frame buffer (cut_nul buffer)

unfoldable pub push : Text → Text → Text
push buffer chunk = buffer ++ chunk

-- `if (!frame) break;`, else the frame is handled before those that the loop takes next.
unfoldable pub and_more : Option Frame → Text → List Frame × Text → List Frame × Text
and_more none left rest = ([], left)
and_more (some f) left (fs, buffer) = (f ∷ fs, buffer)

-- The loop `while (accumulator.hasFrames())`: the frames in the order in which they are handled, and
-- what is left in the buffer.
unfoldable pub drain : ℕ → Text → List Frame × Text
unfolding has_frames next_frame and_more
drain zero buffer = ([], buffer)
drain (suc n) buffer =
    let taken = next_frame buffer in
    let rest = drain n taken.1 in
    if has_frames buffer then and_more taken.0 taken.1 rest else ([], buffer)

-- A connection: the accumulator's buffer, `totalBytesReceived`, the frames handled so far in their
-- order, and whether the handler has closed it.
pub record Inbox : Type 0 where
  pub buffer : Text
  pub total : ℕ
  pub frames : List Frame
  pub closed : Bool

abbrev pub max_buffer_bytes : ℕ
max_buffer_bytes = 1048576

unfoldable pub handle_all : Inbox → List Frame × Text → Inbox
handle_all i (fs, buffer) = record i { buffer = buffer; frames = i.frames ++ fs }

-- The handler of `data` up to the dispatch on the command; `size` is `Buffer.byteLength`. The loop
-- has no more rounds than the buffer has units.
unfoldable pub on_data : (Text → ℕ) → Text → Inbox → Inbox
unfolding push drain is_blank handle_all
on_data size chunk i =
    if is_blank chunk
    then i
    else if ltb max_buffer_bytes (i.total + size chunk)
    then record i { total = i.total + size chunk; closed = true }
    else (let buffer = push i.buffer chunk in
        handle_all (record i { total = i.total + size chunk }) (drain (length buffer) buffer))

unfoldable pub receive : (Text → ℕ) → List Text → Inbox → Inbox
unfolding on_data
receive size [] i = i
receive size (chunk ∷ chunks) i = receive size chunks (on_data size chunk i)
