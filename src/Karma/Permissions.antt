-- ===== src/Karma/Permissions.antt =====
-- The permissions that a user's karma leaves.
use iuh_exchange_be.Base.{
  ◌≡◌, refl, Bool, true, false, not, ◌&&◌, ◌||◌, List, [], ◌∷◌, ◌++◌, arith, if◌then◌else◌,
  value_or, Bool-cases, inl, inr,
}
use iuh_exchange_be.Base.Int.{ℤ, pos, negsuc, leb_ℤ, ◌+ℤ◌}
use iuh_exchange_be.Karma.Policy.{
  Permission, can_post, can_chat, can_report, same_permission, User, has, add, delete, apply_rules,
  karma_of, sync_permissions_with_karma, karma_permission_rules,
}
use iuh_exchange_be.Karma.Service.{adjusted}

has-append :
    (p q : Permission) (ps : List Permission)
    → has p (ps ++ (q ∷ [])) ≡ (has p ps || same_permission q p)
unfolding has
has-append p q [] = ground arith
has-append p q (x ∷ ps) = ground (arith, has-append p q ps)

same_permission-eq : (p q : Permission) → same_permission p q ≡ true → p ≡ q
unfolding same_permission
same_permission-eq can_post can_post h = refl
same_permission-eq can_chat can_chat h = refl
same_permission-eq can_report can_report h = refl
same_permission-eq can_post can_chat h = cc
same_permission-eq can_post can_report h = cc
same_permission-eq can_chat can_post h = cc
same_permission-eq can_chat can_report h = cc
same_permission-eq can_report can_post h = cc
same_permission-eq can_report can_chat h = cc

has-add :
    (p q : Permission) (ps : List Permission) → has p (add q ps) ≡ (has p ps || same_permission q p)
unfolding add
has-add p q ps = elim (Bool-cases (has q ps)) [
  | inl there ↦ elim (Bool-cases (same_permission q p)) [
    | inl same ↦ ground (arith, same_permission-eq q p)
    | inr other ↦ ground arith
  ]
  | inr fresh ↦ rw fresh (has-append p q ps)
]

has-delete :
    (p q : Permission) (ps : List Permission)
    → has p (delete q ps) ≡ (has p ps && not (same_permission q p))
unfolding delete has
has-delete p q [] = refl
has-delete p q (x ∷ ps) = elim (Bool-cases (same_permission x q)) [
  | inl same ↦ rw (same_permission-eq x q same) (ground (arith, has-delete p q ps))
  | inr other ↦ ground (arith, has-delete p q ps, same_permission-eq x p, same_permission-eq q p)
]

-- A rule decides its own permission, and no other.
has-apply :
    (p q : Permission) (b : Bool) (ps : List Permission)
    → has p (if b then add q ps else delete q ps) ≡ (if same_permission q p then b else has p ps)
has-apply p q true ps = ground (arith, has-add p q ps)
has-apply p q false ps = ground (arith, has-delete p q ps)

-- The least karma that `KARMA_PERMISSION_RULES` asks for.
abbrev pub min_karma : Permission → ℤ
min_karma can_post = pos 0
min_karma can_chat = negsuc 8
min_karma can_report = negsuc 18

-- Whatever permissions a user had, after an adjustment the user has exactly those whose least
-- karma the new karma reaches: posting from 0, chatting from -9, reporting from -19.
pub adjusted_permissions :
    (u : User) (delta : ℤ) (p : Permission)
    → has p (value_or (adjusted u delta).permissions []) ≡ leb_ℤ (min_karma p) (karma_of u +ℤ delta)
unfolding adjusted sync_permissions_with_karma karma_permission_rules apply_rules same_permission
    karma_of
adjusted_permissions u delta can_post = simp has-apply
adjusted_permissions u delta can_chat = simp has-apply
adjusted_permissions u delta can_report = simp has-apply
