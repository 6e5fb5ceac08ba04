-- ===== src/Permissions.antt =====
-- What each workspace role may do (packages/shared/src/permissions.ts).
mod Tests
use iot_saas.Prelude.{
  ℕ, ◌≤◌, String, Bool, true, false, ◌≡◌, ◌↔◌, refl, Option, none, some, List, [], ◌∷◌, any, keep,
  leb, str_eq, if◌then◌else◌, arith,
}

pub data Role : Type 0 where
  owner admin viewer : Role

pub data Action : Type 0 where
  devices_write templates_write zones_write rules_write commands_send : Action
  members_manage members_grant_owner keys_manage : Action
  workspace_rename workspace_alerts workspace_setup dashboards_write : Action

unfoldable pub rank : Role → ℕ
rank viewer = 0
rank admin = 1
rank owner = 2

unfoldable pub min_role : Action → Role
min_role devices_write = admin
min_role templates_write = admin
min_role zones_write = admin
min_role rules_write = admin
min_role commands_send = admin
min_role members_manage = admin
min_role members_grant_owner = owner
min_role keys_manage = admin
min_role workspace_rename = owner
min_role workspace_alerts = admin
min_role workspace_setup = admin
min_role dashboards_write = viewer

abbrev role_named : String → Option Role
role_named text =
    if str_eq text "owner"
    then some owner
    else if str_eq text "admin"
    then some admin
    else if str_eq text "viewer"
    then some viewer
    else none

-- Null and undefined are `none`.
unfoldable pub to_role : Option String → Option Role
to_role none = none
to_role (some text) = role_named text

abbrev may : Action → Option Role → Bool
may action none = false
may action (some r) = leb (rank (min_role action)) (rank r)

unfoldable pub can : Option String → Action → Bool
can role action = may action (to_role role)

abbrev assignable_by : Option Role → List Role
assignable_by none = []
assignable_by (some r) = keep (λ x. leb (rank x) (rank r)) (viewer ∷ admin ∷ owner ∷ [])

unfoldable pub assignable_roles : Option String → List Role
assignable_roles actor = assignable_by (to_role actor)

-- The text of a role.
unfoldable pub role_text : Role → String
role_text owner = "owner"
role_text admin = "admin"
role_text viewer = "viewer"

abbrev pub same_role : Role → Role → Bool
same_role owner owner = true
same_role admin admin = true
same_role viewer viewer = true
same_role _ _ = false

to_role-role_text : (r : Role) → to_role (some (role_text r)) ≡ some r
unfolding to_role role_text
to_role-role_text owner = refl
to_role-role_text admin = refl
to_role-role_text viewer = refl

-- A role that ranks at least as high as another may do all that the other may.
pub can_monotone :
    (r s : Role) (action : Action)
    → rank r ≤ rank s
    → can (some (role_text r)) action ≡ true
    → can (some (role_text s)) action ≡ true
unfolding can
can_monotone r s action h k = ground (arith, to_role-role_text r, to_role-role_text s)

-- Who may give which role: an owner each, an admin all but the owner's, a viewer the viewer's.
pub data Gives : Role → Role → Type 0 where
  by_owner : (r : Role) → Gives owner r
  admin_by_admin : Gives admin admin
  viewer_by_admin : Gives admin viewer
  viewer_by_viewer : Gives viewer viewer

abbrev pub is_assignable : Option String → Role → Bool
is_assignable actor r = any (λ x. same_role x r) (assignable_roles actor)

is_assignable-Gives :
    (actor r : Role) → is_assignable (some (role_text actor)) r ≡ true → Gives actor r
unfolding assignable_roles rank
is_assignable-Gives owner r h = by_owner r
is_assignable-Gives admin owner h =
    absurd (let k = rw (to_role-role_text admin) at h in ground arith)
is_assignable-Gives admin admin h = admin_by_admin
is_assignable-Gives admin viewer h = viewer_by_admin
is_assignable-Gives viewer owner h =
    absurd (let k = rw (to_role-role_text viewer) at h in ground arith)
is_assignable-Gives viewer admin h =
    absurd (let k = rw (to_role-role_text viewer) at h in ground arith)
is_assignable-Gives viewer viewer h = viewer_by_viewer

Gives-is_assignable :
    (actor r : Role) → Gives actor r → is_assignable (some (role_text actor)) r ≡ true
unfolding assignable_roles rank
Gives-is_assignable _ _ (by_owner owner) = rw (to_role-role_text owner) refl
Gives-is_assignable _ _ (by_owner admin) = rw (to_role-role_text owner) refl
Gives-is_assignable _ _ (by_owner viewer) = rw (to_role-role_text owner) refl
Gives-is_assignable _ _ admin_by_admin = rw (to_role-role_text admin) refl
Gives-is_assignable _ _ viewer_by_admin = rw (to_role-role_text admin) refl
Gives-is_assignable _ _ viewer_by_viewer = rw (to_role-role_text viewer) refl

can-assignable :
    (o : Option Role) → may members_grant_owner o ≡ any (λ x. same_role x owner) (assignable_by o)
unfolding rank min_role
can-assignable none = refl
can-assignable (some owner) = refl
can-assignable (some admin) = refl
can-assignable (some viewer) = refl

-- An owner may give each role, an admin all but the owner's, a viewer only the viewer's. Whatever text
-- stands for the role of a member, the owner's role is among those to give exactly where the member may
-- grant it by the table of actions.
pub assignable_roles_lem :
    ((actor r : Role) → (is_assignable (some (role_text actor)) r ≡ true) ↔ Gives actor r)
    × ((text : Option String) → can text members_grant_owner ≡ is_assignable text owner)
unfolding can assignable_roles
assignable_roles_lem = (
  λ actor r. (is_assignable-Gives actor r, Gives-is_assignable actor r),
  λ text. can-assignable (to_role text),
)
