-- ===== src/Stomp/Escape.antt =====
-- The escapes of a header and what undoes them.
use iuh_exchange_be.Base.{
  ℕ, Bool, ◌≡◌, refl, ap, ◌∙◌, sym, true, false, not, ◌&&◌, ◌||◌, [], ◌∷◌, ◌++◌, ◌==◌,
  if◌then◌else◌, arith, Bool-cases, inl, inr, ==_iff,
}
use iuh_exchange_be.Stomp.Codec.{
  Text, newline, colon, backslash, replace_unit, replace_pair, escape_header, unescape_header,
}

-- No backslash stands directly before a `c` or an `n`.
unfoldable pub is_plain : Text → Bool
is_plain [] = true
is_plain (x ∷ []) = true
is_plain (x ∷ y ∷ s) = not ((x == backslash) && (y == 99 || y == 110)) && is_plain (y ∷ s)

head_is : ℕ → Text → Bool
head_is b [] = false
head_is b (y ∷ s) = y == b

module _ (a b new : ℕ) where
  replace_skip :
      (x : ℕ) (s : Text)
      → (x == a) ≡ false
      → replace_pair a b new (x ∷ s) ≡ x ∷ replace_pair a b new s
  unfolding replace_pair
  replace_skip x [] other = refl
  replace_skip x (y ∷ s) other = rw other refl

  replace_pass :
      (x y : ℕ) (s : Text)
      → (y == b) ≡ false
      → replace_pair a b new (x ∷ y ∷ s) ≡ x ∷ replace_pair a b new (y ∷ s)
  unfolding replace_pair
  replace_pass x y s other = ground arith

  replace_hit : (s : Text) → replace_pair a b new (a ∷ b ∷ s) ≡ new ∷ replace_pair a b new s
  unfolding replace_pair
  replace_hit s = ground arith

  replace_before :
      (s : Text) → head_is b s ≡ false → replace_pair a b new (a ∷ s) ≡ a ∷ replace_pair a b new s
  unfolding head_is replace_pair
  replace_before [] out = refl
  replace_before (y ∷ s) out = replace_pass a y s out

-- One unit with a backslash escaped, and newlines and colons where the flags say so.
hide : Bool → Bool → ℕ → Text
hide nl cl x =
    if x == backslash
    then backslash ∷ backslash ∷ []
    else if nl && (x == newline)
    then backslash ∷ 110 ∷ []
    else if cl && (x == colon)
    then backslash ∷ 99 ∷ []
    else x ∷ []

hide_all : Bool → Bool → Text → Text
hide_all nl cl [] = []
hide_all nl cl (x ∷ s) = hide nl cl x ++ hide_all nl cl s

escape-hide : (s : Text) → escape_header s ≡ hide_all true true s
unfolding escape_header replace_unit hide_all hide
escape-hide [] = refl
escape-hide (x ∷ s) = elim (Bool-cases (x == backslash)) [
  | inl b ↦ rw b (ap (λ t. backslash ∷ backslash ∷ t) (escape-hide s))
  | inr not_b ↦ elim (Bool-cases (x == newline)) [
    | inl n ↦ rw (not_b, n) (ap (λ t. backslash ∷ 110 ∷ t) (escape-hide s))
    | inr not_n ↦ elim (Bool-cases (x == colon)) [
      | inl c ↦ rw (not_b, not_n, c) (ap (λ t. backslash ∷ 99 ∷ t) (escape-hide s))
      | inr not_c ↦ rw (not_b, not_n, not_c) (ap (λ t. x ∷ t) (escape-hide s))
    ]
  ]
]

-- A text that starts with neither `c` nor `n` is hidden in one that does not.
head-hide :
    (b : ℕ) (nl cl : Bool) (s : Text)
    → head_is b s ≡ false
    → (b == backslash) ≡ false
    → head_is b (hide_all nl cl s) ≡ false
unfolding head_is hide_all hide
head-hide b nl cl [] out other = refl
head-hide b nl cl (y ∷ s) out other = ground arith

plain-head : (x : ℕ) (s : Text) → is_plain (x ∷ s) ≡ true → is_plain s ≡ true
unfolding is_plain
plain-head x [] p = refl
plain-head x (y ∷ s) p = ground arith

plain-colon : (s : Text) → is_plain (backslash ∷ s) ≡ true → head_is 99 s ≡ false
unfolding is_plain head_is
plain-colon [] p = refl
plain-colon (y ∷ s) p = ground arith

plain-newline : (s : Text) → is_plain (backslash ∷ s) ≡ true → head_is 110 s ≡ false
unfolding is_plain head_is
plain-newline [] p = refl
plain-newline (y ∷ s) p = ground arith

is_plain-backslash :
    (x : ℕ) (s : Text)
    → (x == backslash) ≡ true
    → is_plain (x ∷ s) ≡ true
    → is_plain (backslash ∷ s) ≡ true
is_plain-backslash x s b p = ap (λ d. is_plain (d ∷ s)) (sym ((==_iff x backslash).0 b)) ∙ p

-- The first replacement brings the colons back.
show_colons :
    (s : Text)
    → is_plain s ≡ true
    → replace_pair backslash 99 colon (hide_all true true s) ≡ hide_all true false s
unfolding hide_all hide replace_pair
show_colons [] p = refl
show_colons (x ∷ s) p =
    let r = hide_all true true s in
    let rest = show_colons s (plain-head x s p) in
    elim (Bool-cases (x == backslash)) [
      | inl b ↦ rw b (
          replace_pass backslash 99 colon backslash backslash r refl
          ∙ ap (λ t. backslash ∷ t)
              (replace_before backslash 99 colon r
                (head-hide 99 true true s (plain-colon s (is_plain-backslash x s b p)) refl))
          ∙ ap (λ t. backslash ∷ backslash ∷ t) rest)
      | inr not_b ↦ elim (Bool-cases (x == newline)) [
        | inl n ↦
            rw (not_b, n)
              (replace_pass backslash 99 colon backslash 110 r refl
                ∙ ap (λ t. backslash ∷ t) (replace_skip backslash 99 colon 110 r refl)
                ∙ ap (λ t. backslash ∷ 110 ∷ t) rest)
        | inr not_n ↦ elim (Bool-cases (x == colon)) [
          | inl c ↦
              rw (not_b, not_n, c)
                (replace_hit backslash 99 colon r
                  ∙ ap (λ t. colon ∷ t) rest
                  ∙ ap (λ d. d ∷ hide_all true false s) (sym ((==_iff x colon).0 c)))
          | inr not_c ↦
              rw (not_b, not_n, not_c)
                (replace_skip backslash 99 colon x r not_b ∙ ap (λ t. x ∷ t) rest)
        ]
      ]
    ]

-- The second one brings the newlines back.
show_newlines :
    (s : Text)
    → is_plain s ≡ true
    → replace_pair backslash 110 newline (hide_all true false s) ≡ hide_all false false s
unfolding hide_all hide replace_pair
show_newlines [] p = refl
show_newlines (x ∷ s) p =
    let r = hide_all true false s in
    let rest = show_newlines s (plain-head x s p) in
    elim (Bool-cases (x == backslash)) [
      | inl b ↦ rw b (
          replace_pass backslash 110 newline backslash backslash r refl
          ∙ ap (λ t. backslash ∷ t)
              (replace_before backslash 110 newline r
                (head-hide 110 true false s (plain-newline s (is_plain-backslash x s b p)) refl))
          ∙ ap (λ t. backslash ∷ backslash ∷ t) rest)
      | inr not_b ↦ elim (Bool-cases (x == newline)) [
        | inl n ↦
            rw (not_b, n)
              (replace_hit backslash 110 newline r
                ∙ ap (λ t. newline ∷ t) rest
                ∙ ap (λ d. d ∷ hide_all false false s) (sym ((==_iff x newline).0 n)))
        | inr not_n ↦
            rw (not_b, not_n) (replace_skip backslash 110 newline x r not_b ∙ ap (λ t. x ∷ t) rest)
      ]
    ]

-- The third one halves the backslashes.
show_backslashes :
    (s : Text) → replace_pair backslash backslash backslash (hide_all false false s) ≡ s
unfolding hide_all hide replace_pair
show_backslashes [] = refl
show_backslashes (x ∷ s) =
    let r = hide_all false false s in
    elim (Bool-cases (x == backslash)) [
      | inl b ↦ rw b (
          replace_hit backslash backslash backslash r
          ∙ ap (λ t. backslash ∷ t) (show_backslashes s)
          ∙ ap (λ d. d ∷ s) (sym ((==_iff x backslash).0 b)))
      | inr not_b ↦ rw not_b (
          replace_skip backslash backslash backslash x r not_b
          ∙ ap (λ t. x ∷ t) (show_backslashes s))
    ]

-- What is escaped and then unescaped is the text itself, if no backslash in it stands directly
-- before a `c` or an `n`.
pub unescape-escape : (s : Text) → is_plain s ≡ true → unescape_header (escape_header s) ≡ s
unfolding unescape_header
unescape-escape s p = rw (escape-hide s, show_colons s p, show_newlines s p) (show_backslashes s)
