-- ===== src/Rbac/State/Login.antt =====
-- rbac/mod.rs, `Users::authorize`: cached sessions, the reload of a basic user, and refusals.
use parseable.Prelude.{
  string_eq, ==_self, ℕ, ◌≡◌, ◌≢◌, refl, inl, inr, Bool, true, Option, none, some, arith, String,
  Option-cases, ◌⊎◌, In, In-concat_map,
}
use parseable.Dict
use parseable.Dict.{Dict}
use parseable.Rbac.Action.{Action}
use parseable.Rbac.Role.{Permission}
use parseable.Rbac.User.{User, UserType, native, oauth, Basic}
use parseable.Rbac.Sessions.{SessionKey, basic_auth, session_id, key_eq, track_new}
use parseable.Rbac.Sessions.Tracking.{get-track_new}
use parseable.Rbac.State.{
  State, Response, authorized, reload_required, role_permissions, roles_to_permission, check_auth,
  reload, authorize_user, authorize_key, authorize,
}
use parseable.Rbac.State.Decision.{
  Allows, FromRole, Inherits, check_auth_iff, check_auth_cached, role_permissions_sound,
}

-- A permission that one of the user's own roles gives.
abbrev pub FromOwnRoles : State → User → Permission → Type 0
FromOwnRoles st user p = (role : String) × In role user.roles × FromRole st.roles role p

roles_to_permission_sound :
    (st : State) (user : User) (p : Permission)
    → In p (roles_to_permission st user.roles)
    → FromOwnRoles st user p
unfolding roles_to_permission
roles_to_permission_sound st user p m =
    let (role, i, j) = In-concat_map (role_permissions st.roles) user.roles p m in
    (role, i, role_permissions_sound p st.roles role j)

module _ (verify : String → String → Bool) (now max_utc : ℕ) (st : State) (required : Action)
    (context context_user : Option String) where
  -- The state in which `authorize` answers a basic user whom it has just let in.
  abbrev pub logged_in : String → String → User → State
  logged_in username password user = record st {
    sessions =
        track_new now st.sessions username (basic_auth username password) max_utc
          (roles_to_permission st user.roles);
  }

  cached_after :
      (username password : String) (user : User)
      → Dict.get
          (logged_in username password user).sessions.active_sessions
          (basic_auth username password)
        ≡ some (username, roles_to_permission st user.roles)
  cached_after username password user = ground (
    arith,
    get-track_new now st.sessions username (basic_auth username password) max_utc
        (roles_to_permission st user.roles) (basic_auth username password),
    ==_self (basic_auth username password),
  )

  -- A session that is cached is answered from the cache, and nothing changes.
  pub authorize_cached :
      (key : SessionKey) (res : Response)
      → check_auth st key required context context_user ≡ some res
      → authorize verify now max_utc st key required context context_user ≡ some (res, st)
  unfolding authorize
  authorize_cached key res h = rw (h, authorize) refl

  reload-ne-none :
      (username password : String) (user : User) (basic : Basic)
      → reload verify now max_utc st username password required context context_user user basic
        ≢ none
  unfolding reload
  reload-ne-none username password user basic = ground (
    arith,
    check_auth_cached (logged_in username password user) (basic_auth username password) required
        context context_user username (roles_to_permission st user.roles)
        (cached_after username password user),
  )

  authorize_user-ne-none :
      (username password : String) (user : User) (ty : UserType)
      → authorize_user verify now max_utc st username password required context context_user user ty
        ≢ none
  unfolding authorize_user
  authorize_user-ne-none username password user (native basic) =
      reload-ne-none username password user basic
  authorize_user-ne-none username password user (oauth o) = cc

  authorize_key-ne-none :
      (key : SessionKey)
      → authorize_key verify now max_utc st key required context context_user ≢ none
  unfolding authorize_key
  authorize_key-ne-none (session_id n) = λ h. cc
  authorize_key-ne-none (basic_auth username password) =
      elim (Option-cases (Dict.get st.users username)) [
        | inl e ↦ ground arith
        | inr (user, e) ↦ ground (arith, authorize_user-ne-none username password user user.ty)
      ]

  -- The `expect` in `authorize` never panics.
  pub authorize-ne-none :
      (key : SessionKey) → authorize verify now max_utc st key required context context_user ≢ none
  unfolding authorize
  authorize-ne-none key = ground (arith, authorize_key-ne-none key)

  -- A session id that is not cached has to log in again, and nothing changes.
  pub authorize-session_id :
      (n : ℕ)
      → check_auth st (session_id n) required context context_user ≡ none
      → authorize verify now max_utc st (session_id n) required context context_user
        ≡ some (reload_required, st)
  unfolding authorize
  authorize-session_id n h = rw (h, authorize) refl

  -- Who may be let in on a name and a password: a native user of that name whose hash fits.
  abbrev pub Fits : String → String → User → Type 0
  Fits username password user =
      (basic : Basic) × (user.ty ≡ native basic) × (verify basic.password_hash password ≡ true)

  reload_sound :
      (username password : String) (user : User) (basic : Basic) (st' : State)
      → reload verify now max_utc st username password required context context_user user basic
        ≡ some (authorized, st')
      → (verify basic.password_hash password ≡ true)
        × (check_auth
              (logged_in username password user)
              (basic_auth username password)
              required
              context
              context_user
            ≡ some authorized)
  unfolding reload
  reload_sound username password user basic st' h = (ground arith, ground arith)

  authorize_user_sound :
      (username password : String) (user : User) (ty : UserType) (st' : State)
      → user.ty ≡ ty
      → authorize_user verify now max_utc st username password required context context_user user ty
        ≡ some (authorized, st')
      → Fits username password user
        × (check_auth
              (logged_in username password user)
              (basic_auth username password)
              required
              context
              context_user
            ≡ some authorized)
  unfolding authorize_user
  authorize_user_sound username password user (native basic) st' e h =
      let (fits, ok) = reload_sound username password user basic st' h in ((basic, e, fits), ok)
  authorize_user_sound username password user (oauth o) st' e h = cc

  -- Whom `authorize` lets in when the session is not cached: a native user whose password fits and
  -- who has, by a role of its own or of a group, a permission that allows the request.
  pub authorize_fresh_sound :
      (username password : String) (st' : State)
      → check_auth st (basic_auth username password) required context context_user ≡ none
      → authorize verify now max_utc st (basic_auth username password) required context context_user
        ≡ some (authorized, st')
      → (user : User) × (Dict.get st.users username ≡ some user)
        × Fits username password user
        × (p : Permission) × (FromOwnRoles st user p ⊎ Inherits st username p)
        × Allows st required context context_user username p
  unfolding authorize
  authorize_fresh_sound username password st' fresh h =
      elim (Option-cases (Dict.get st.users username)) [
        | inl e ↦ absurd (ground arith)
        | inr (user, e) ↦
            let (fits, ok) =
              authorize_user_sound username password user user.ty st' refl (ground arith) in
            let (p, m, a) =
              (check_auth_iff (logged_in username password user) (basic_auth username password)
                  required context context_user username (roles_to_permission st user.roles)
                  (cached_after username password user)).0
                ok in
            (
              user,
              e,
              fits,
              p,
              elim m [
                | inl own ↦ inl (roles_to_permission_sound st user p own)
                | inr inherited ↦ inr inherited
              ],
              a,
            )
      ]
