-- ===== src/Karma/Policy.antt =====
-- The rules of karma and the permissions that follow from it:
-- packages/user-service/src/services/karma-policy.js and `syncPermissionsWithKarma` of
-- karma.service.js.
use iuh_exchange_be.Base.{
  Bool, true, false, not, Option, none, some, List, [], ◌∷◌, ◌++◌, if◌then◌else◌, select, value_or,
}
use iuh_exchange_be.Base.Int.{ℤ, pos, negsuc, leb_ℤ}
use iuh_exchange_be.Orders.Model.{ObjectId}

pub data Permission : Type 0 where
  can_post can_chat can_report : Permission

unfoldable pub same_permission : Permission → Permission → Bool
same_permission can_post can_post = true
same_permission can_chat can_chat = true
same_permission can_report can_report = true
same_permission _ _ = false

-- The fields of a user that karma reads and writes. `permissions` is absent where it is no array.
pub record User : Type 0 where
  pub id : ObjectId
  pub karma_point : Option ℤ
  pub permissions : Option (List Permission)

unfoldable pub default_karma : ℤ
default_karma = pos 10

unfoldable pub karma_permission_rules : List (Permission × ℤ)
karma_permission_rules = (can_post, pos 0) ∷ (can_chat, negsuc 8) ∷ (can_report, negsuc 18) ∷ []

-- `Number(user.karmaPoint ?? DEFAULT_KARMA)`
unfoldable pub karma_of : User → ℤ
unfolding default_karma
karma_of u = value_or u.karma_point default_karma

unfoldable pub normalize_permissions : Option (List Permission) → List Permission
normalize_permissions none = can_post ∷ can_chat ∷ can_report ∷ []
normalize_permissions (some ps) = ps

-- A `Set` keeps its entries in the order of their insertion.
unfoldable pub has : Permission → List Permission → Bool
unfolding same_permission
has p [] = false
has p (q ∷ qs) = let rest = has p qs in if same_permission q p then true else rest

unfoldable pub add : Permission → List Permission → List Permission
unfolding has
add p ps = if has p ps then ps else ps ++ (p ∷ [])

unfoldable pub delete : Permission → List Permission → List Permission
unfolding same_permission
delete p ps = select (λ q. not (same_permission q p)) ps

-- `new Set(permissions)`, from the entries already in it.
unfoldable pub to_set : List Permission → List Permission → List Permission
to_set seen [] = seen
to_set seen (p ∷ ps) = to_set (add p seen) ps

unfoldable pub apply_rules : ℤ → List (Permission × ℤ) → List Permission → List Permission
apply_rules karma [] ps = ps
apply_rules karma ((p, min_karma) ∷ rules) ps =
    apply_rules karma rules (if leb_ℤ min_karma karma then add p ps else delete p ps)

unfoldable pub sync_permissions_with_karma : User → User
unfolding karma_permission_rules karma_of normalize_permissions apply_rules to_set
sync_permissions_with_karma u = record u {
  permissions = some (
      apply_rules (karma_of u) karma_permission_rules
        (to_set [] (normalize_permissions u.permissions)));
}
