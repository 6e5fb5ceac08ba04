-- ===== src/Permissions/Tests.antt =====
-- The permissions of concrete roles.
use iot_saas.Prelude.{◌≡◌, refl, false, some}
use iot_saas.Permissions.{owner, assignable_roles, is_assignable, to_role, rank}

admin_and_owner : is_assignable (some "admin") owner ≡ false
unfolding assignable_roles to_role rank
admin_and_owner = refl
