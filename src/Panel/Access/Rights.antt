-- ===== src/Panel/Access/Rights.antt =====
-- What the panel's access control grants (telegram_panel/api/middleware/auth.py).
use scalping.Prelude.{
  ℕ, ◌+◌, ◌≡◌, refl, ap, ◌∙◌, Bool, true, not, ◌&&◌, Option, none, some, ltb, ◌==◌, if◌then◌else◌,
  arith, Bool-cases, inl, inr,
}
use scalping.Panel.Access.{
  BotRole, owner, admin, viewer, blocked, Attribute, for_role, grants, User, new_user,
  is_role_blocked, is_blocked, Auth, Stored, auto_role, is_owner, loaded, promoted, cached,
  set_cache, from_cache, get_user, check_permission,
}

-- From the role with no rights to the role with all of them.
abbrev pub rank : BotRole → ℕ
rank blocked = 0
rank viewer = 1
rank admin = 2
rank owner = 3

-- A user's permissions are those of the role.
abbrev pub IsConsistent : User → Type 0
IsConsistent u = u.permissions ≡ for_role u.role

new_user-IsConsistent : (id : ℕ) (r : BotRole) (active : Bool) → IsConsistent (new_user id r active)
unfolding new_user
new_user-IsConsistent id r active = refl

loaded-IsConsistent : (id : ℕ) (a : Auth) (row : Stored) → IsConsistent (loaded id a row)
unfolding loaded
loaded-IsConsistent id a none = new_user-IsConsistent id (auto_role id a) true
loaded-IsConsistent id a (some (role, active)) = new_user-IsConsistent id role active

promoted-IsConsistent :
    (id : ℕ) (a : Auth) (u : User) → IsConsistent u → IsConsistent (promoted id a u)
unfolding promoted
promoted-IsConsistent id a u h = elim (Bool-cases ((id == a.owner_id) && not (is_owner u.role))) [
  | inl e ↦ rw e refl
  | inr e ↦ rw e h
]

abbrev IsConsistentEntry : Option (User × ℕ) → Type 0
IsConsistentEntry none = Unit
IsConsistentEntry (some (u, t)) = IsConsistent u

abbrev pub IsConsistentCache : Auth → Type 0
IsConsistentCache a = (id : ℕ) → IsConsistentEntry (a.cache id)

abbrev IsConsistentHit : Option User → Type 0
IsConsistentHit none = Unit
IsConsistentHit (some u) = IsConsistent u

cached-IsConsistentHit :
    (now : ℕ) (a : Auth) (e : Option (User × ℕ))
    → IsConsistentEntry e
    → IsConsistentHit (cached now a e)
unfolding cached
cached-IsConsistentHit now a none h = tt
cached-IsConsistentHit now a (some (u, t)) h = elim (Bool-cases (ltb now (t + a.cache_ttl))) [
  | inl e ↦ rw e h
  | inr e ↦ rw e tt
]

set_cache-IsConsistentCache :
    (id now : ℕ) (a : Auth) (u : User)
    → IsConsistent u
    → IsConsistentCache a
    → IsConsistentCache (set_cache id (u, now) a)
unfolding set_cache
set_cache-IsConsistentCache id now a u h c id' = elim (Bool-cases (id == id')) [
  | inl e ↦ rw e h
  | inr e ↦ rw e (c id')
]

from_cache-IsConsistent :
    (id now : ℕ) (row : Stored) (a : Auth) (hit : Option User)
    → IsConsistentHit hit
    → IsConsistentCache a
    → IsConsistentCache (from_cache id now row a hit).0
      × IsConsistent (from_cache id now row a hit).1
unfolding from_cache
from_cache-IsConsistent id now row a (some u) h c = (c, h)
from_cache-IsConsistent id now row a none h c =
    let p = promoted-IsConsistent id a (loaded id a row) (loaded-IsConsistent id a row) in
    (set_cache-IsConsistentCache id now a (promoted id a (loaded id a row)) p c, p)

-- Whatever roles the repository reports and whoever asks, every user that the middleware hands out or
-- keeps in its cache has exactly the permissions of the role.
pub get_user-IsConsistent :
    (id now : ℕ) (row : Stored) (a : Auth)
    → IsConsistentCache a
    → IsConsistentCache (get_user id now row a).0 × IsConsistent (get_user id now row a).1
unfolding get_user
get_user-IsConsistent id now row a c =
    from_cache-IsConsistent id now row a (cached now a (a.cache id))
      (cached-IsConsistentHit now a (a.cache id) (c id)) c

-- The role under which an id acts: the owner's id as the owner, a stored user as stored.
abbrev pub acting_role : ℕ → Auth → Stored → BotRole
acting_role id a row =
    if id == a.owner_id
    then owner
    else elim row [ none ↦ auto_role id a | some (role, active) ↦ role ]

abbrev pub is_active_row : Stored → Bool
is_active_row none = true
is_active_row (some (role, active)) = active

promoted-role :
    (id : ℕ) (a : Auth) (row : Stored)
    → let u = promoted id a (loaded id a row) in
      (u.role ≡ acting_role id a row) × (u.is_active ≡ is_active_row row)
unfolding promoted loaded new_user auto_role
promoted-role id a none = ground arith
promoted-role id a (some (role, active)) = ground arith

promoted-permissions :
    (id : ℕ) (a : Auth) (row : Stored)
    → (promoted id a (loaded id a row)).permissions ≡ for_role (acting_role id a row)
promoted-permissions id a row =
    promoted-IsConsistent id a (loaded id a row) (loaded-IsConsistent id a row)
    ∙ ap for_role (promoted-role id a row).0

-- A user who is not in the cache may do what the acting role may do, as long as the role is not blocked
-- and the user is active.
pub check_permission_fresh :
    (id now : ℕ) (x : Attribute) (row : Stored) (a : Auth)
    → a.cache id ≡ none
    → (check_permission id now x row a).1 ≡ (
        not (is_role_blocked (acting_role id a row))
        && is_active_row row
        && grants (for_role (acting_role id a row)) x)
unfolding check_permission get_user from_cache cached is_blocked
check_permission_fresh id now x row a h =
    rw (h, (promoted-role id a row).0, (promoted-role id a row).1, promoted-permissions id a row)
      (ground arith)
