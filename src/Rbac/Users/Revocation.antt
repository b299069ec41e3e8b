-- ===== src/Rbac/Users/Revocation.antt =====
-- rbac/mod.rs: which sessions are over after an operation of `Users` that ends those of a user.
use parseable.Prelude.{
  string_eq, ℕ, ◌+◌, ◌≡◌, ◌≢◌, refl, sym, subst, ◌∙◌, inl, inr, true, false, false≢true, some, List,
  arith, ◌==◌, String, Bool-cases,
}
use parseable.Dict
use parseable.Dict.{Dict}
use parseable.Rbac.Role.{Permission}
use parseable.Rbac.User
use parseable.Rbac.User.{User, UserType, native, oauth, Basic}
use parseable.Rbac.Sessions.{Sessions, SessionKey, key_eq, remove_user, permissions}
use parseable.Rbac.Sessions.Removal.{tracked, get-remove_user}
use parseable.Rbac.Sessions.Tracking.{expired_tracked, remove_user-track_new}
use parseable.Rbac.State.{State, roles_to_permission}
use parseable.Rbac.Users.{
  put_user, delete_user, change_password_hash, with_hash, add_roles, remove_roles, new_session,
}

-- Every active session of the user is tracked for the user.
abbrev pub IsTracked : Sessions → String → Type 0
IsTracked s user =
    (k : SessionKey) (perms : List Permission)
    → Dict.get s.active_sessions k ≡ some (user, perms)
    → tracked s user k ≡ true

-- No active session belongs to the user.
abbrev pub HasNoSession : Sessions → String → Type 0
HasNoSession s user =
    (k : SessionKey) (perms : List Permission) → Dict.get s.active_sessions k ≢ some (user, perms)

remove_user-HasNoSession :
    (s : Sessions) (user : String) → IsTracked s user → HasNoSession (remove_user s user) user
remove_user-HasNoSession s user all_tracked k perms h = elim (Bool-cases (tracked s user k)) [
  | inl e ↦ ground (arith, get-remove_user s user k)
  | inr e ↦ false≢true (sym e ∙ all_tracked k perms (ground (arith, get-remove_user s user k)))
]

module _ (st : State) (userid : String) (all_tracked : IsTracked st.sessions userid) where
  -- Deleting a user ends all its sessions.
  delete_user-HasNoSession : HasNoSession (delete_user st userid).sessions userid
  unfolding delete_user
  delete_user-HasNoSession = remove_user-HasNoSession st.sessions userid all_tracked

  put_user-HasNoSession :
      (user : User) → User.userid user ≡ userid → HasNoSession (put_user st user).sessions userid
  unfolding put_user
  put_user-HasNoSession user e =
      subst (λ n. HasNoSession (remove_user st.sessions n) userid) (sym e)
        (remove_user-HasNoSession st.sessions userid all_tracked)

  module _ (user : User) (known : Dict.get st.users userid ≡ some user) where
    add_roles-HasNoSession :
        (roles : List String) → HasNoSession (add_roles st userid roles).sessions userid
    unfolding add_roles
    add_roles-HasNoSession roles =
        rw (known, add_roles) (remove_user-HasNoSession st.sessions userid all_tracked)

    remove_roles-HasNoSession :
        (roles : List String) → HasNoSession (remove_roles st userid roles).sessions userid
    unfolding remove_roles
    remove_roles-HasNoSession roles =
        rw (known, remove_roles) (remove_user-HasNoSession st.sessions userid all_tracked)

    change_password_hash-HasNoSession :
        (hash : String) (basic : Basic)
        → user.ty ≡ native basic
        → HasNoSession (change_password_hash st userid hash).sessions userid
    unfolding change_password_hash
    change_password_hash-HasNoSession hash basic e =
        rw (known, change_password_hash, e, with_hash)
          (remove_user-HasNoSession st.sessions userid all_tracked)

-- The change of a password: it ends the sessions of a native user, and leaves all as it is for
-- another one, who has no password here.
abbrev pub ChangesPassword : State → String → String → UserType → Type 0
ChangesPassword st userid hash (native basic) =
    HasNoSession (change_password_hash st userid hash).sessions userid
ChangesPassword st userid hash (oauth o) = change_password_hash st userid hash ≡ st

password-ChangesPassword :
    (st : State) (userid : String) (user : User) (hash : String)
    → IsTracked st.sessions userid
    → Dict.get st.users userid ≡ some user
    → ChangesPassword st userid hash user.ty
unfolding change_password_hash
password-ChangesPassword st userid user hash t known = by_type user.ty refl
  where
    by_type : (ty : UserType) → user.ty ≡ ty → ChangesPassword st userid hash ty
    by_type (native basic) e = change_password_hash-HasNoSession st userid t user known hash basic e
    by_type (oauth o) e = rw (known, change_password_hash, e, with_hash) refl

-- Where all active sessions of a known user are tracked, each operation that changes what the user
-- may do ends them all, and so does a change of the password of a native user; that of another user
-- changes nothing.
pub update_ends_sessions :
    (st : State) (user : User) (roles : List String) (hash : String)
    → IsTracked st.sessions (User.userid user)
    → Dict.get st.users (User.userid user) ≡ some user
    → HasNoSession (add_roles st (User.userid user) roles).sessions (User.userid user)
      × HasNoSession (remove_roles st (User.userid user) roles).sessions (User.userid user)
      × ChangesPassword st (User.userid user) hash user.ty
      × HasNoSession (put_user st user).sessions (User.userid user)
      × HasNoSession (delete_user st (User.userid user)).sessions (User.userid user)
update_ends_sessions st user roles hash t known = (
  add_roles-HasNoSession st (User.userid user) t user known roles,
  remove_roles-HasNoSession st (User.userid user) t user known roles,
  password-ChangesPassword st (User.userid user) user hash t known,
  put_user-HasNoSession st (User.userid user) t user refl,
  delete_user-HasNoSession st (User.userid user) t,
)

-- A session of a user, and another one that is opened for the user while the first is live.
module _ (now : ℕ) (st : State) (user : User) (opened key : SessionKey) (expires_in : ℕ)
    (other : (opened == key) ≡ false)
    (live : expired_tracked now st.sessions (User.userid user) key ≡ false) where
  survives :
      permissions
        (remove_user (new_session now st user opened expires_in).sessions (User.userid user))
        key
      ≡ permissions st.sessions key
  unfolding new_session
  survives = ground (
    arith,
    remove_user-track_new now st.sessions (User.userid user) opened (now + expires_in)
        (roles_to_permission st user.roles) key,
  )

  known_after :
      Dict.get st.users (User.userid user) ≡ some user
      → Dict.get (new_session now st user opened expires_in).users (User.userid user) ≡ some user
  unfolding new_session
  known_after known = known

  -- A session whose expiry had not passed when another one was opened for its user keeps its
  -- permissions when roles are taken from the user afterwards.
  pub remove_roles-new_session :
      (roles : List String)
      → Dict.get st.users (User.userid user) ≡ some user
      → permissions
          (remove_roles
            (new_session now st user opened expires_in)
            (User.userid user)
            roles).sessions
          key
        ≡ permissions st.sessions key
  unfolding remove_roles
  remove_roles-new_session roles known = rw (known_after known, remove_roles) survives
