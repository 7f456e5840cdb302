-- ===== src/Stomp/Lacks.antt =====
-- Units that an escaped text lacks.
use iuh_exchange_be.Base.{ℕ, ◌≡◌, refl, true, [], ◌∷◌, ◌==◌, arith, Bool-cases, inl, inr}
use iuh_exchange_be.Stomp.Codec.{Text, newline, colon, backslash, replace_unit, escape_header}
use iuh_exchange_be.Stomp.Lines.{lacks, lacks-append}

replace_lacks_other :
    (x y : ℕ) (new s : Text)
    → lacks y new ≡ true
    → lacks y s ≡ true
    → lacks y (replace_unit x new s) ≡ true
unfolding replace_unit lacks
replace_lacks_other x y new [] p q = refl
replace_lacks_other x y new (c ∷ s) p q = elim (Bool-cases (c == x)) [
  | inl hit ↦
      rw hit (
        lacks-append y new (replace_unit x new s) p
          (replace_lacks_other x y new s p (ground arith)))
  | inr other ↦ rw other (ground (arith, replace_lacks_other x y new s p))
]

replace_lacks_same :
    (x : ℕ) (new s : Text) → lacks x new ≡ true → lacks x (replace_unit x new s) ≡ true
unfolding replace_unit lacks
replace_lacks_same x new [] p = refl
replace_lacks_same x new (c ∷ s) p = elim (Bool-cases (c == x)) [
  | inl hit ↦ rw hit (lacks-append x new (replace_unit x new s) p (replace_lacks_same x new s p))
  | inr other ↦ rw (other, other) (replace_lacks_same x new s p)
]

doubled : Text → Text
doubled s = replace_unit backslash (backslash ∷ backslash ∷ []) s

joined : Text → Text
unfolding doubled
joined s = replace_unit newline (backslash ∷ 110 ∷ []) (doubled s)

pub escape_no_newline : (s : Text) → lacks newline (escape_header s) ≡ true
unfolding escape_header lacks doubled joined
escape_no_newline s =
    replace_lacks_other colon newline (backslash ∷ 99 ∷ []) (joined s) refl
      (replace_lacks_same newline (backslash ∷ 110 ∷ []) (doubled s) refl)

pub escape_no_colon : (s : Text) → lacks colon (escape_header s) ≡ true
unfolding escape_header lacks doubled joined
escape_no_colon s = replace_lacks_same colon (backslash ∷ 99 ∷ []) (joined s) refl

pub escape_no_nul : (s : Text) → lacks 0 s ≡ true → lacks 0 (escape_header s) ≡ true
unfolding escape_header lacks doubled joined
escape_no_nul s p = replace_lacks_other colon 0 (backslash ∷ 99 ∷ []) (joined s) refl (
    replace_lacks_other newline 0 (backslash ∷ 110 ∷ []) (doubled s) refl
      (replace_lacks_other backslash 0 (backslash ∷ backslash ∷ []) s refl p))
