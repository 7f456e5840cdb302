-- ===== src/Stomp/Stream/Refine.antt =====
-- The accumulator against the frames of the whole stream.
use mathlib.Core.List.{append_assoc, append-nil}
use iuh_exchange_be.Base.{
  ℕ, ◌≡◌, refl, ap, ◌∙◌, sym, true, false, List, [], ◌∷◌, ◌++◌, arith, map, All, length, ltb, ◌+◌,
  ◌≤◌, ◌<◌,
}
use iuh_exchange_be.Stomp.Codec.{Text, Frame, is_blank, parse_frame}
use iuh_exchange_be.Stomp.Stream.{
  has_frames, push, Inbox, max_buffer_bytes, handle_all, on_data, receive,
}
use iuh_exchange_be.Stomp.Stream.Complete.{
  stream_of, stream-append, rest-drained, drained-stream, drain-stream,
}

abbrev pub concat : List Text → Text
concat [] = []
concat (t ∷ ts) = t ++ concat ts

abbrev pub sum_of : (Text → ℕ) → List Text → ℕ
sum_of size [] = 0
sum_of size (t ∷ ts) = size t + sum_of size ts

not_over : (t : ℕ) → t ≤ max_buffer_bytes → ltb max_buffer_bytes t ≡ false
not_over t small = ground arith

-- What a connection holds after a stream has come in.
abbrev pub taken_in : (Text → ℕ) → List Text → Inbox → Inbox
taken_in size chunks i =
    let stream = stream_of (i.buffer ++ concat chunks) in
    record i {
      buffer = stream.rest;
      total = i.total + sum_of size chunks;
      frames = i.frames ++ map parse_frame stream.complete;
    }

on_data-stream :
    (size : Text → ℕ) (chunk : Text) (i : Inbox)
    → is_blank chunk ≡ false
    → i.total + size chunk ≤ max_buffer_bytes
    → on_data size chunk i ≡ record i {
      buffer = (stream_of (i.buffer ++ chunk)).rest;
      total = i.total + size chunk;
      frames = i.frames ++ map parse_frame (stream_of (i.buffer ++ chunk)).complete;
    }
unfolding on_data push handle_all
on_data-stream size chunk i solid small =
    rw
      (
        solid,
        not_over (i.total + size chunk) small,
        drain-stream (length (i.buffer ++ chunk)) (i.buffer ++ chunk) (omega arith),
      )
      refl

plus_zero : (n : ℕ) → n + 0 ≡ n
plus_zero n = omega arith

plus_assoc : (a b c : ℕ) → a + (b + c) ≡ a + b + c
plus_assoc a b c = omega arith

map-append : (f : Text → Frame) (xs ys : List Text) → map f (xs ++ ys) ≡ map f xs ++ map f ys
map-append f [] ys = refl
map-append f (x ∷ xs) ys = ap (λ t. f x ∷ t) (map-append f xs ys)

-- The first message is taken in first.
taken_in-cons :
    (size : Text → ℕ) (chunk : Text) (chunks : List Text) (i : Inbox)
    → taken_in size (chunk ∷ chunks) i
      ≡ taken_in size chunks (record i {
        buffer = (stream_of (i.buffer ++ chunk)).rest;
        total = i.total + size chunk;
        frames = i.frames ++ map parse_frame (stream_of (i.buffer ++ chunk)).complete;
      })
taken_in-cons size chunk chunks i =
    rw
      (
        sym (append_assoc i.buffer chunk (concat chunks)),
        stream-append (i.buffer ++ chunk) (concat chunks),
        map-append parse_frame (stream_of (i.buffer ++ chunk)).complete
            (stream_of ((stream_of (i.buffer ++ chunk)).rest ++ concat chunks)).complete,
        sym (
            append_assoc i.frames (map parse_frame (stream_of (i.buffer ++ chunk)).complete) (
              map parse_frame
                (stream_of ((stream_of (i.buffer ++ chunk)).rest ++ concat chunks)).complete)),
        plus_assoc i.total (size chunk) (sum_of size chunks),
      )
      refl

-- However a stream is cut into messages, none of them blank and all together within the limit, a
-- connection that has no complete frame in its buffer handles the frames of the stream that are
-- complete, each once and in their order, and keeps the rest: what it holds does not depend on the
-- cuts.
pub receive_refines :
    (size : Text → ℕ) (chunks : List Text) (i : Inbox)
    → All (λ c. is_blank c ≡ false) chunks
    → i.total + sum_of size chunks ≤ max_buffer_bytes
    → has_frames i.buffer ≡ false
    → receive size chunks i ≡ taken_in size chunks i
unfolding receive
receive_refines size [] i solid small drained =
    rw
      (append-nil i.buffer, drained-stream i.buffer drained, append-nil i.frames, plus_zero i.total)
      refl
receive_refines size (chunk ∷ chunks) i solid small drained =
    let so_far = i.buffer ++ chunk in
    ap (receive size chunks) (on_data-stream size chunk i solid.0 (omega (arith, small)))
    ∙ receive_refines size chunks _ solid.1 (omega (arith, small)) (rest-drained so_far)
    ∙ sym (taken_in-cons size chunk chunks i)

over : (t : ℕ) → max_buffer_bytes < t → ltb max_buffer_bytes t ≡ true
over t large = ground arith

refused :
    (size : Text → ℕ) (chunk : Text) (i : Inbox)
    → is_blank chunk ≡ false
    → max_buffer_bytes < i.total + size chunk
    → on_data size chunk i ≡ record i { total = i.total + size chunk; closed = true }
unfolding on_data
refused size chunk i solid large = rw (solid, over (i.total + size chunk) large) refl

-- The limit is on all that a connection has ever sent: once that is more than the limit, no further
-- message is put in the buffer, none of its frames is handled, and the connection is closed, whatever
-- the buffer holds.
pub total_exhausted :
    (size : Text → ℕ) (chunk : Text) (chunks : List Text) (i : Inbox)
    → All (λ c. is_blank c ≡ false) (chunk ∷ chunks)
    → max_buffer_bytes < i.total + size chunk
    → ((receive size (chunk ∷ chunks) i).buffer ≡ i.buffer)
      × ((receive size (chunk ∷ chunks) i).frames ≡ i.frames)
      × ((receive size (chunk ∷ chunks) i).closed ≡ true)
unfolding receive
total_exhausted size chunk [] i solid large =
    let out = refused size chunk i solid.0 large in
    (
      ap (λ (j : Inbox). j.buffer) out,
      ap (λ (j : Inbox). j.frames) out,
      ap (λ (j : Inbox). j.closed) out,
    )
total_exhausted size chunk (next ∷ chunks) i solid large =
    let j = record i { total = i.total + size chunk; closed = true } in
    let out = refused size chunk i solid.0 large in
    let (buffer, frames, closed) =
      total_exhausted size next chunks j solid.1 (omega (arith, large)) in
    (
      ap (λ (k : Inbox). (receive size (next ∷ chunks) k).buffer) out ∙ buffer,
      ap (λ (k : Inbox). (receive size (next ∷ chunks) k).frames) out ∙ frames,
      ap (λ (k : Inbox). (receive size (next ∷ chunks) k).closed) out ∙ closed,
    )
