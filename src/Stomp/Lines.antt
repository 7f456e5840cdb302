-- ===== src/Stomp/Lines.antt =====
-- Lines, blank lines and trimmed texts.
use iuh_exchange_be.Base.{
  ℕ, Bool, ◌≡◌, refl, ap, ◌∙◌, sym, true, false, not, ◌&&◌, List, [], ◌∷◌, ◌++◌, ◌==◌, arith, any,
  Bool-cases, inl, inr, ==_iff,
}
use iuh_exchange_be.Stomp.Codec.{
  Text, newline, colon, is_blank_unit, trim_start, trim_end, trim, is_empty, is_blank, split_first,
  split_lines, join_after, join_lines, split_colon, strip_nul,
}

-- A unit does not occur in a text.
unfoldable pub lacks : ℕ → Text → Bool
lacks x [] = true
lacks x (c ∷ s) = not (c == x) && lacks x s

pub lacks-append :
    (x : ℕ) (s t : Text) → lacks x s ≡ true → lacks x t ≡ true → lacks x (s ++ t) ≡ true
unfolding lacks
lacks-append x [] t p q = q
lacks-append x (c ∷ s) t p q = ground (arith, lacks-append x s t)

pub split_first-append :
    (l r : Text) → lacks newline l ≡ true → split_first (l ++ newline ∷ r) ≡ (l, split_lines r)
unfolding split_first split_lines lacks
split_first-append [] r p = refl
split_first-append (c ∷ l) r p = elim (Bool-cases (c == newline)) [
  | inl hit ↦ cc (rw hit at p)
  | inr other ↦ rw (other, split_first-append l r (rw other at p)) refl
]

pub split_lines-append :
    (l r : Text) → lacks newline l ≡ true → split_lines (l ++ newline ∷ r) ≡ l ∷ split_lines r
unfolding split_lines
split_lines-append l r p = rw (split_first-append l r p) refl

pub split_colon-append :
    (k v : Text) → lacks colon k ≡ true → split_colon (k ++ colon ∷ v) ≡ (k, v, true)
unfolding split_colon lacks
split_colon-append [] v p = refl
split_colon-append (c ∷ k) v p = elim (Bool-cases (c == colon)) [
  | inl hit ↦ cc (rw hit at p)
  | inr other ↦ rw (other, split_colon-append k v (rw other at p)) refl
]

join_after-cons : (c : ℕ) (l : Text) (ls : List Text) → join_after (c ∷ l) ls ≡ c ∷ join_after l ls
unfolding join_after
join_after-cons c l [] = refl
join_after-cons c l (k ∷ ls) = refl

pub join-split : (s : Text) → join_lines (split_lines s) ≡ s
unfolding join_lines split_lines split_first join_after
join-split [] = refl
join-split (c ∷ s) = elim (Bool-cases (c == newline)) [
  | inl hit ↦
      rw hit
        (ap (λ t. newline ∷ t) (join-split s) ∙ ap (λ d. d ∷ s) (sym ((==_iff c newline).0 hit)))
  | inr other ↦
      rw other
        (join_after-cons c (split_first s).0 (split_first s).1 ∙ ap (λ t. c ∷ t) (join-split s))
]

trim_end-solid :
    (s : Text) → any (λ c. not (is_blank_unit c)) s ≡ true → is_empty (trim_end s) ≡ false
unfolding trim_end is_empty
trim_end-solid [] h = cc
trim_end-solid (c ∷ s) h = elim (Bool-cases (is_empty (trim_end s))) [
  | inr more ↦ rw more refl
  | inl none_left ↦ elim (Bool-cases (is_blank_unit c)) [
    | inl blank ↦ cc (sym none_left ∙ trim_end-solid s (rw blank at h))
    | inr solid ↦ rw (none_left, solid) refl
  ]
]

trim_start-solid :
    (s : Text)
    → any (λ c. not (is_blank_unit c)) s ≡ true
    → any (λ c. not (is_blank_unit c)) (trim_start s) ≡ true
unfolding trim_start
trim_start-solid [] h = cc
trim_start-solid (c ∷ s) h = elim (Bool-cases (is_blank_unit c)) [
  | inl blank ↦ rw blank (trim_start-solid s (rw blank at h))
  | inr solid ↦ rw solid h
]

-- A line is not blank where some unit of it is not.
pub is_blank-solid : (s : Text) → any (λ c. not (is_blank_unit c)) s ≡ true → is_blank s ≡ false
unfolding is_blank trim
is_blank-solid s h = trim_end-solid (trim_start s) (trim_start-solid s h)

pub strip_nul-lacks : (s : Text) → lacks 0 s ≡ true → strip_nul s ≡ s
unfolding strip_nul lacks
strip_nul-lacks [] p = refl
strip_nul-lacks (c ∷ []) p = ground arith
strip_nul-lacks (c ∷ d ∷ s) p = ap (λ t. c ∷ t) (strip_nul-lacks (d ∷ s) (ground arith))
