-- ===== src/Panel/Access.antt =====
-- telegram_panel/models/user.py and telegram_panel/api/middleware/auth.py: who may do what. The answer
-- of the repository is an argument; names, the audit log and replies are left out.
use scalping.Prelude.{
  ℕ, ◌+◌, Bool, true, false, not, ◌&&◌, ◌||◌, Option, none, some, List, [], ◌∷◌, any, ltb, ◌==◌,
  if◌then◌else◌,
}
pub mod Rights
mod Tests

-- `BotRole` of telegram_panel/config/constants.py.
pub data BotRole : Type 0 where
  owner admin viewer blocked : BotRole

pub record UserPermission : Type 0 where
  pub can_view_dashboard : Bool
  pub can_view_accounts : Bool
  pub can_manage_accounts : Bool
  pub can_control_robot : Bool
  pub can_manage_trades : Bool
  pub can_change_risk : Bool
  pub can_change_strategy : Bool
  pub can_view_reports : Bool
  pub can_export_reports : Bool
  pub can_manage_notifications : Bool
  pub can_access_system : Bool
  pub can_manage_users : Bool
  pub can_view_logs : Bool

-- The names of the permissions, with "no such attribute" as `unknown`.
pub data Attribute : Type 0 where
  can_view_dashboard can_view_accounts can_manage_accounts can_control_robot can_manage_trades :
      Attribute
  can_change_risk can_change_strategy can_view_reports can_export_reports : Attribute
  can_manage_notifications can_access_system can_manage_users can_view_logs unknown : Attribute

-- Everything, and what each lesser role lacks of it.
all_permissions : UserPermission
all_permissions = record {
  can_view_dashboard = true;
  can_view_accounts = true;
  can_manage_accounts = true;
  can_control_robot = true;
  can_manage_trades = true;
  can_change_risk = true;
  can_change_strategy = true;
  can_view_reports = true;
  can_export_reports = true;
  can_manage_notifications = true;
  can_access_system = true;
  can_manage_users = true;
  can_view_logs = true;
}

pub for_role : BotRole → UserPermission
unfolding all_permissions
for_role owner = all_permissions
for_role admin = record all_permissions { can_manage_users = false }
for_role viewer = record {
  can_view_dashboard = true;
  can_view_accounts = true;
  can_manage_accounts = false;
  can_control_robot = false;
  can_manage_trades = false;
  can_change_risk = false;
  can_change_strategy = false;
  can_view_reports = true;
  can_export_reports = false;
  can_manage_notifications = false;
  can_access_system = false;
  can_manage_users = false;
  can_view_logs = false;
}
for_role blocked = record {
  can_view_dashboard = false;
  can_view_accounts = false;
  can_manage_accounts = false;
  can_control_robot = false;
  can_manage_trades = false;
  can_change_risk = false;
  can_change_strategy = false;
  can_view_reports = false;
  can_export_reports = false;
  can_manage_notifications = false;
  can_access_system = false;
  can_manage_users = false;
  can_view_logs = false;
}

-- `getattr(permissions, attribute, False)`.
pub grants : UserPermission → Attribute → Bool
grants p can_view_dashboard = p.can_view_dashboard
grants p can_view_accounts = p.can_view_accounts
grants p can_manage_accounts = p.can_manage_accounts
grants p can_control_robot = p.can_control_robot
grants p can_manage_trades = p.can_manage_trades
grants p can_change_risk = p.can_change_risk
grants p can_change_strategy = p.can_change_strategy
grants p can_view_reports = p.can_view_reports
grants p can_export_reports = p.can_export_reports
grants p can_manage_notifications = p.can_manage_notifications
grants p can_access_system = p.can_access_system
grants p can_manage_users = p.can_manage_users
grants p can_view_logs = p.can_view_logs
grants p unknown = false

pub record User : Type 0 where
  pub telegram_id : ℕ
  pub role : BotRole
  pub is_active : Bool
  pub permissions : UserPermission

-- `__post_init__`: a user that is built gets the permissions of the role.
pub new_user : (telegram_id : ℕ) → BotRole → (is_active : Bool) → User
new_user id role active = record {
  telegram_id = id;
  role = role;
  is_active = active;
  permissions = for_role role;
}

abbrev pub is_role_blocked : BotRole → Bool
is_role_blocked blocked = true
is_role_blocked _ = false

pub is_blocked : User → Bool
is_blocked u = is_role_blocked u.role || not u.is_active

-- The middleware: the configured ids, and the users seen last, with the time.
pub record Auth : Type 0 where
  pub owner_id : ℕ
  pub admin_ids : List ℕ
  pub cache_ttl : ℕ
  pub cache : ℕ → Option (User × ℕ)

-- A row of the repository: the role and whether the user is active.
abbrev pub Stored : Type 0
Stored = Option (BotRole × Bool)

pub auto_role : ℕ → Auth → BotRole
auto_role id a =
    if id == a.owner_id then owner else if any (λ x. x == id) a.admin_ids then admin else viewer

abbrev is_owner : BotRole → Bool
is_owner owner = true
is_owner _ = false

loaded : ℕ → Auth → Stored → User
unfolding new_user auto_role
loaded id a none = new_user id (auto_role id a) true
loaded id a (some (role, active)) = new_user id role active

-- The owner's id is always the owner, with the owner's permissions.
promoted : ℕ → Auth → User → User
promoted id a u =
    if (id == a.owner_id) && not (is_owner u.role)
    then record u { role = owner; permissions = for_role owner }
    else u

cached : ℕ → Auth → Option (User × ℕ) → Option User
cached now a none = none
cached now a (some (u, at)) = if ltb now (at + a.cache_ttl) then some u else none

set_cache : ℕ → User × ℕ → Auth → Auth
set_cache id entry a = record a { cache = λ id'. if id == id' then some entry else a.cache id' }

from_cache : (telegram_id now : ℕ) → Stored → Auth → Option User → Auth × User
unfolding loaded promoted set_cache
from_cache id now row a (some u) = (a, u)
from_cache id now row a none =
    let u = promoted id a (loaded id a row) in (set_cache id (u, now) a, u)

-- `get_user`, for an update that names its sender.
pub get_user : (telegram_id now : ℕ) → Stored → Auth → Auth × User
unfolding cached from_cache
get_user id now row a = from_cache id now row a (cached now a (a.cache id))

pub check_permission : (telegram_id now : ℕ) → Attribute → Stored → Auth → Auth × Bool
unfolding get_user is_blocked
check_permission id now attribute row a =
    let r = get_user id now row a in
    (r.0, if is_blocked r.1 then false else grants r.1.permissions attribute)

pub invalidate_cache : ℕ → Auth → Auth
invalidate_cache id a = record a { cache = λ id'. if id == id' then none else a.cache id' }
