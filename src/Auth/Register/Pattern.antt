-- ===== src/Auth/Register/Pattern.antt =====
-- The pattern of a student's address against what it describes.
use Prim.Native.Char.{code}
use text.Mathlib.TextEquality.{codes_equal}
use text.Mathlib.TextLemmas.{cons-append, nil-append}
use iuh_exchange_be.Base.{
  ℕ, String, Bool, ◌≡◌, ◌↔◌, refl, ap, ◌∙◌, sym, some, none, arith, Bool-cases, inl, inr, true,
  false, not, leb, leb→le, ◌≤◌, ◌==◌, ◌&&◌, if◌then◌else◌,
}
use iuh_exchange_be.Base.Text.{eq_iff, truthy, str_append}
use iuh_exchange_be.Auth.Register.{
  is_digit, span, text_length, is_student_mailbox, follows_id, match_student_id,
}

-- Every character of a text has a property.
abbrev pub all_chars : (ℕ → Bool) → String → Bool
all_chars p String.[] = true
all_chars p (String.◌∷◌ c s) = p (code c) && all_chars p s

-- A text that a longest run cannot continue into.
abbrev stops : (ℕ → Bool) → String → Bool
stops p String.[] = true
stops p (String.◌∷◌ c s) = not (p (code c))

span-stop : (p : ℕ → Bool) (t : String) → stops p t ≡ true → span p t ≡ (String.[], t)
unfolding span
span-stop p String.[] out = refl
span-stop p (String.◌∷◌ c s) out = elim (Bool-cases (p (code c))) [
  | inl hit ↦ cc (rw hit at out)
  | inr miss ↦ rw miss refl
]

and_true : (a b : Bool) → (a && b) ≡ true → (a ≡ true) × (b ≡ true)
and_true true b h = (refl, h)
and_true false b h = cc

span-append :
    (p : ℕ → Bool) (s t : String)
    → all_chars p s ≡ true
    → stops p t ≡ true
    → span p (str_append s t) ≡ (s, t)
unfolding span
span-append p String.[] t in_run out = ap (span p) (nil-append t) ∙ span-stop p t out
span-append p (String.◌∷◌ c s) t in_run out = elim (Bool-cases (p (code c))) [
  | inl hit ↦ rw (cons-append c s t, hit, span-append p s t (rw hit at in_run) out) refl
  | inr miss ↦ cc (rw miss at in_run)
]

span-join : (p : ℕ → Bool) (s : String) → str_append (span p s).0 (span p s).1 ≡ s
unfolding span
span-join p String.[] = refl
span-join p (String.◌∷◌ c s) = elim (Bool-cases (p (code c))) [
  | inl hit ↦ rw hit (cons-append c (span p s).0 (span p s).1 ∙ ap (String.◌∷◌ c) (span-join p s))
  | inr miss ↦ rw miss (nil-append (String.◌∷◌ c s))
]

span-all : (p : ℕ → Bool) (s : String) → all_chars p (span p s).0 ≡ true
unfolding span
span-all p String.[] = refl
span-all p (String.◌∷◌ c s) = elim (Bool-cases (p (code c))) [
  | inl hit ↦ rw (hit, hit) (span-all p s)
  | inr miss ↦ rw miss refl
]

-- A number, a dot, a name, and the university's domain.
abbrev pub student_address : String → String → String
student_address id name = str_append id (String.◌∷◌ "." (str_append name "@student.iuh.edu.vn"))

-- `[^@]`
abbrev pub is_not_at : ℕ → Bool
is_not_at c = not (c == 64)

-- What the number and the name are made of.
abbrev pub IsStudent : String → String → Type 0
IsStudent id name =
    (all_chars is_digit id ≡ true)
    × (6 ≤ text_length id)
    × (text_length id ≤ 12)
    × (truthy name ≡ true)
    × (all_chars is_not_at name ≡ true)

mailbox_found :
    (s : String)
    → is_student_mailbox s ≡ true
    → (name : String) × (s ≡ str_append name "@student.iuh.edu.vn")
      × (truthy name ≡ true)
      × (all_chars is_not_at name ≡ true)
unfolding is_student_mailbox
mailbox_found s h =
    let name = (span is_not_at s).0 in
    let (some_name, domain) = and_true (truthy name) _ h in
    (
      name,
      sym (span-join is_not_at s) ∙ ap (str_append name) ((eq_iff _ _).0 domain),
      some_name,
      span-all is_not_at s,
    )

dot_found :
    (s : String)
    → follows_id s ≡ true
    → (rest : String) × (s ≡ String.◌∷◌ "." rest) × (is_student_mailbox rest ≡ true)
unfolding follows_id
dot_found String.[] h = cc
dot_found (String.◌∷◌ c s) h =
    let (dot, rest) = and_true (code c == 46) _ h in
    (s, ap (λ d. String.◌∷◌ d s) (codes_equal c "." (ground arith)), rest)

taken : (b : Bool) (s t : String) → (if b then some s else none) ≡ some t → (b ≡ true) × (s ≡ t)
taken true s t h = (refl, cc)
taken false s t h = cc

leb-true : (m n : ℕ) → m ≤ n → leb m n ≡ true
leb-true m n h = ground arith

follows-true :
    (name : String)
    → truthy name ≡ true
    → all_chars is_not_at name ≡ true
    → follows_id (String.◌∷◌ "." (str_append name "@student.iuh.edu.vn")) ≡ true
unfolding follows_id is_student_mailbox
follows-true name named no_at =
    rw (span-append is_not_at name "@student.iuh.edu.vn" no_at refl, named) refl

match_student_id_sound :
    (s id : String)
    → match_student_id s ≡ some id
    → (name : String) × (s ≡ student_address id name) × IsStudent id name
unfolding match_student_id
match_student_id_sound s id h =
    let digits = (span is_digit s).0 in
    let (tests, same) = taken _ digits id h in
    let (bounds, follows) = and_true _ (follows_id (span is_digit s).1) tests in
    let (six, twelve) = and_true (leb 6 (text_length digits)) _ bounds in
    let (rest, dotted, box) = dot_found (span is_digit s).1 follows in
    let (name, domain, named, no_at) = mailbox_found rest box in
    (
      name,
      sym (span-join is_digit s)
          ∙ ap (str_append digits) (dotted ∙ ap (String.◌∷◌ ".") domain)
          ∙ ap (λ t. student_address t name) same,
      (
        ap (all_chars is_digit) (sym same) ∙ span-all is_digit s,
        leb→le 6 (text_length id) (ap (λ t. leb 6 (text_length t)) (sym same) ∙ six),
        leb→le (text_length id) 12 (ap (λ t. leb (text_length t) 12) (sym same) ∙ twelve),
        named,
        no_at,
      ),
    )

match_student_id_complete :
    (id name : String) → IsStudent id name → match_student_id (student_address id name) ≡ some id
unfolding match_student_id is_digit
match_student_id_complete id name (digits, six, twelve, named, no_at) =
    rw
      (
        span-append is_digit id (String.◌∷◌ "." (str_append name "@student.iuh.edu.vn")) digits
            refl,
        leb-true 6 (text_length id) six,
        leb-true (text_length id) 12 twelve,
        follows-true name named no_at,
      )
      refl

-- An address gives a student's number just where it is that number, of six to twelve digits, a dot,
-- a name that is not empty and has no `@`, and the university's domain.
pub match_student_id_iff :
    (s id : String)
    → (match_student_id s ≡ some id)
      ↔ ((name : String) × (s ≡ student_address id name) × IsStudent id name)
match_student_id_iff s id = (
  match_student_id_sound s id,
  λ (name, built, parts). ap match_student_id built ∙ match_student_id_complete id name parts,
)
