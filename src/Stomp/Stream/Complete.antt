-- ===== src/Stomp/Stream/Complete.antt =====
-- The complete texts of a buffer, and the loop that takes them.
use iuh_exchange_be.Base.{
  ℕ, zero, suc, ◌≡◌, refl, ap, ◌∙◌, sym, true, false, ◌⊎◌, inl, inr, some, none, List, [], ◌∷◌,
  ◌++◌, ◌==◌, if◌then◌else◌, arith, Bool-cases, map, length, ◌≤◌,
}
use iuh_exchange_be.Stomp.Codec.{Text, Frame, parse_frame}
use iuh_exchange_be.Stomp.Stream.{has_frames, cut_nul, take_frame, next_frame, and_more, drain}

-- A stream is texts that each end with a NUL, and a rest without one.
pub record Stream : Type 0 where
  pub complete : List Text
  pub rest : Text

abbrev add_unit : ℕ → Stream → List Text → Stream
add_unit c s [] = record { complete = []; rest = c ∷ s.rest }
add_unit c s (t ∷ ts) = record { complete = (c ∷ t) ∷ ts; rest = s.rest }

unfoldable pub stream_of : Text → Stream
stream_of [] = record { complete = []; rest = [] }
stream_of (c ∷ s) =
    let after = stream_of s in
    if c == 0
    then record { complete = [] ∷ after.complete; rest = after.rest }
    else add_unit c after after.complete

-- A text is followed by a stream.
abbrev pub after_rest : Stream → Stream → Stream
after_rest s t = record { complete = s.complete ++ t.complete; rest = t.rest }

add_unit-append :
    (c : ℕ) (ts : List Text) (r t : Text)
    → (c == 0) ≡ false
    → add_unit c
        (after_rest (record { complete = ts; rest = r }) (stream_of (r ++ t)))
        (ts ++ (stream_of (r ++ t)).complete)
      ≡ after_rest
          (add_unit c (record { complete = ts; rest = r }) ts)
          (stream_of ((add_unit c (record { complete = ts; rest = r }) ts).rest ++ t))
unfolding stream_of
add_unit-append c [] r t other = rw other refl
add_unit-append c (u ∷ ts) r t other = refl

pub stream-append :
    (s t : Text)
    → stream_of (s ++ t) ≡ after_rest (stream_of s) (stream_of ((stream_of s).rest ++ t))
unfolding stream_of
stream-append [] t = refl
stream-append (c ∷ s) t = elim (Bool-cases (c == 0)) [
  | inl hit ↦ rw (hit, stream-append s t) refl
  | inr other ↦
      rw (other, stream-append s t)
        (add_unit-append c (stream_of s).complete (stream_of s).rest t other)
]

abbrev Cut : Text → Type 0
Cut b =
    ((cut_nul b ≡ none)
      × (has_frames b ≡ false)
      × (stream_of b ≡ record { complete = []; rest = b }))
    ⊎ ((raw : Text) × (left : Text) × (cut_nul b ≡ some (raw, left))
        × (has_frames b ≡ true)
        × (stream_of b
            ≡ record { complete = raw ∷ (stream_of left).complete; rest = (stream_of left).rest })
        × (suc (length left) ≤ length b))

Cut-all : (b : Text) → Cut b
unfolding cut_nul has_frames stream_of
Cut-all [] = inl (refl, refl, refl)
Cut-all (c ∷ b) = elim (Bool-cases (c == 0)) [
  | inl hit ↦ inr ([], b, rw hit refl, rw hit refl, rw hit refl, omega arith)
  | inr other ↦ elim (Cut-all b) [
    | inl (cut, has, stream) ↦
        inl (rw (other, cut) refl, rw (other, has) refl, rw (other, stream) refl)
    | inr (raw, left, cut, has, stream, less) ↦ inr (
      c ∷ raw,
      left,
      rw (other, cut) refl,
      rw (other, has) refl,
      rw (other, stream) refl,
      omega (arith, less),
    )
  ]
]

stream-nil : stream_of [] ≡ record { complete = []; rest = [] }
unfolding stream_of
stream-nil = refl

pub drain-stream :
    (n : ℕ) (b : Text)
    → length b ≤ n
    → drain n b ≡ (map parse_frame (stream_of b).complete, (stream_of b).rest)
unfolding drain next_frame take_frame and_more
drain-stream zero [] enough = rw stream-nil refl
drain-stream zero (c ∷ b) enough = absurd (omega (arith, enough))
drain-stream (suc n) b enough = elim (Cut-all b) [
  | inl (cut, has, stream) ↦ rw (has, stream) refl
  | inr (raw, left, cut, has, stream, less) ↦
      rw (has, cut, drain-stream n left (omega (arith, less, enough)), stream) refl
]

add_unit-drained :
    (c : ℕ) (s : Stream) (ts : List Text)
    → (c == 0) ≡ false
    → has_frames s.rest ≡ false
    → has_frames (add_unit c s ts).rest ≡ false
unfolding has_frames
add_unit-drained c s [] other drained = rw (other, drained) refl
add_unit-drained c s (t ∷ ts) other drained = drained

pub rest-drained : (b : Text) → has_frames (stream_of b).rest ≡ false
unfolding stream_of has_frames
rest-drained [] = refl
rest-drained (c ∷ b) = elim (Bool-cases (c == 0)) [
  | inl hit ↦ rw hit (rest-drained b)
  | inr other ↦
      rw other (add_unit-drained c (stream_of b) (stream_of b).complete other (rest-drained b))
]

pub drained-stream :
    (b : Text) → has_frames b ≡ false → stream_of b ≡ record { complete = []; rest = b }
drained-stream b h = elim (Cut-all b) [
  | inl (cut, has, stream) ↦ stream
  | inr (raw, left, cut, has, stream, less) ↦ cc (sym has ∙ h)
]

length-map : (f : Text → Frame) (ts : List Text) → length (map f ts) ≡ length ts
length-map f [] = refl
length-map f (t ∷ ts) = ap suc (length-map f ts)

-- The loop over the complete frames of a buffer ends: as many rounds as the buffer has units are
-- enough, more of them change nothing, no complete frame is left behind, and each text of the buffer
-- that ends with a NUL gives one frame, in its order.
pub drain-terminates :
    (n : ℕ) (b : Text)
    → length b ≤ n
    → (drain n b ≡ drain (length b) b)
      × (has_frames (drain n b).1 ≡ false)
      × ((drain n b).0 ≡ map parse_frame (stream_of b).complete)
drain-terminates n b enough =
    let all = drain-stream n b enough in
    (
      all ∙ sym (drain-stream (length b) b (omega arith)),
      ap (λ (r : List Frame × Text). has_frames r.1) all ∙ rest-drained b,
      ap (λ (r : List Frame × Text). r.0) all,
    )
