-- ===== src/Rbac/State/Decision.antt =====
-- rbac/map.rs, `check_auth`: when a cached session is authorised, as a relation.
use text.Mathlib.TextEquality.{eq_iff}
use parseable.Prelude.{
  string_eq, ◌≡◌, refl, ap, ◌↔◌, inl, inr, Bool, true, ◌&&◌, ◌||◌, Option, none, some, List, ◌++◌,
  arith, String, if◌then◌else◌, any, ◌⊎◌, concat_map, In, any-In, In-any, In-append, In-append_left,
  In-append_right, In-concat_map, concat_map-In,
}
use parseable.Dict
use parseable.Dict.{Dict}
use parseable.Rbac.Action.{Action, action_eq, action_eqb, action_eqb_iff, get_user_roles}
use parseable.Rbac.Role.{
  Permission, unit, resource, self_user, stream, llm, all, DefaultPrivilege, privilege_permissions,
}
use parseable.Rbac.User.{User, UserGroup}
use parseable.Rbac.Sessions.{SessionKey, key_eq}
use parseable.Rbac.State.{
  State, internal, authorized, unauthorized, or_empty, role_permissions, group_permissions,
  permissions_of_group, permissions_of_user, aggregate_group_permissions, ok_resource, allows,
  check_auth, is_context_user,
}

-- The permission's action is the required one, or `All`.
abbrev pub Covers : Action → Action → Type 0
Covers required a = (a ≡ required) ⊎ (a ≡ Action.all)

-- A permission for one resource reaches a request that names no resource, the same one, or an
-- internal stream; the resource `*` reaches all.
abbrev pub Reaches : State → Option String → String → Type 0
Reaches st none id = Unit
Reaches st (some context) id =
    (id ≡ context) ⊎ (id ≡ "*") ⊎ (Dict.get st.streams context ≡ some internal)

abbrev pub Allows : State → Action → Option String → Option String → String → Permission → Type 0
Allows st required context context_user username (unit a) = Covers required a
Allows st required context context_user username (resource a (stream id)) =
    Covers required a × Reaches st context id
Allows st required context context_user username (resource a (llm id)) =
    Covers required a × Reaches st context id
Allows st required context context_user username (resource a all) = Covers required a
Allows st required context context_user username self_user =
    (required ≡ get_user_roles) × (context_user ≡ some username)

ok_resource_iff :
    (st : State) (context : Option String) (id : String)
    → (ok_resource st context id ≡ true) ↔ Reaches st context id
unfolding ok_resource
ok_resource_iff st none id = (λ h. tt, λ h. refl)
ok_resource_iff st (some c) id = (
  λ h. ground (arith, eq_iff id c, eq_iff id "*"),
  λ h. ground (arith, eq_iff id c, eq_iff id "*"),
)

-- `action == required || action == Action::All`
Covers-iff :
    (required a : Action)
    → ((action_eqb a required || action_eqb a Action.all) ≡ true) ↔ Covers required a
Covers-iff required a = (
  λ h. ground (arith, action_eqb_iff a required, action_eqb_iff a Action.all),
  λ h. ground (arith, action_eqb_iff a required, action_eqb_iff a Action.all),
)

and_iff : (b c : Bool) → ((b && c) ≡ true) ↔ ((b ≡ true) × (c ≡ true))
and_iff b c = (λ h. ground arith, λ h. ground arith)

both_iff {ℓ κ} :
    {P : Type ℓ} {Q : Type κ} (b c : Bool)
    → (b ≡ true) ↔ P
    → (c ≡ true) ↔ Q
    → ((b && c) ≡ true) ↔ (P × Q)
both_iff b c p q =
    (λ h. let (x, y) = (and_iff b c).0 h in (p.0 x, q.0 y), λ h. (and_iff b c).1 (p.1 h.0, q.1 h.1))

context_user_iff :
    (context_user : Option String) (username : String)
    → (is_context_user context_user username ≡ true) ↔ (context_user ≡ some username)
context_user_iff none username = (λ h. cc, λ h. cc)
context_user_iff (some x) username =
    (λ h. ap some ((eq_iff x username).0 h), λ h. ground (arith, eq_iff x username))

pub allows_iff :
    (st : State) (required : Action) (context context_user : Option String) (username : String)
    (p : Permission)
    → (allows st required context context_user username p ≡ true)
      ↔ Allows st required context context_user username p
unfolding allows
allows_iff st required context context_user username (unit a) = Covers-iff required a
allows_iff st required context context_user username (resource a (stream id)) =
    both_iff _ _ (Covers-iff required a) (ok_resource_iff st context id)
allows_iff st required context context_user username (resource a (llm id)) =
    both_iff _ _ (Covers-iff required a) (ok_resource_iff st context id)
allows_iff st required context context_user username (resource a all) = Covers-iff required a
allows_iff st required context context_user username self_user =
    both_iff _ _ (action_eqb_iff required get_user_roles) (context_user_iff context_user username)

-- A permission that a role gives, by one of its privileges.
abbrev pub FromRole : Dict String (List DefaultPrivilege) → String → Permission → Type 0
FromRole roles role p =
    (privileges : List DefaultPrivilege) × (Dict.get roles role ≡ some privileges)
    × (privilege : DefaultPrivilege) × In privilege privileges
    × In p (privilege_permissions privilege)

abbrev pub FromGroup : State → String → Permission → Type 0
FromGroup st name p =
    (group : UserGroup) × (Dict.get st.user_groups name ≡ some group)
    × (role : String) × In role group.roles
    × FromRole st.roles role p

-- A permission that a user has by a role of one of its groups.
abbrev pub Inherits : State → String → Permission → Type 0
Inherits st username p =
    (user : User) × (Dict.get st.users username ≡ some user)
    × (name : String) × In name user.user_groups
    × FromGroup st name p

module _ (p : Permission) where
  from_privileges :
      (o : Option (List DefaultPrivilege))
      → In p (concat_map privilege_permissions (or_empty o))
      → (ps : List DefaultPrivilege) × (o ≡ some ps)
        × (d : DefaultPrivilege) × In d ps
        × In p (privilege_permissions d)
  from_privileges none m = elim m [ ]
  from_privileges (some ps) m =
      let (d, i, j) = In-concat_map privilege_permissions ps p m in (ps, refl, d, i, j)

  pub role_permissions_sound :
      (roles : Dict String (List DefaultPrivilege)) (role : String)
      → In p (role_permissions roles role)
      → FromRole roles role p
  unfolding role_permissions
  role_permissions_sound roles role m = from_privileges (Dict.get roles role) m

  pub role_permissions_complete :
      (roles : Dict String (List DefaultPrivilege)) (role : String)
      → FromRole roles role p
      → In p (role_permissions roles role)
  unfolding role_permissions
  role_permissions_complete roles role (ps, e, d, i, j) =
      rw e (concat_map-In privilege_permissions ps d p i j)

  from_group :
      (roles : Dict String (List DefaultPrivilege)) (o : Option UserGroup)
      → In p (permissions_of_group roles o)
      → (group : UserGroup) × (o ≡ some group)
        × (role : String) × In role group.roles
        × FromRole roles role p
  from_group roles none m = elim m [ ]
  from_group roles (some group) m =
      let (role, i, j) = In-concat_map (role_permissions roles) group.roles p m in
      (group, refl, role, i, role_permissions_sound roles role j)

  group_permissions_sound :
      (st : State) (name : String) → In p (group_permissions st name) → FromGroup st name p
  unfolding group_permissions
  group_permissions_sound st name m = from_group st.roles (Dict.get st.user_groups name) m

  group_permissions_complete :
      (st : State) (name : String) → FromGroup st name p → In p (group_permissions st name)
  unfolding group_permissions
  group_permissions_complete st name (group, e, role, i, f) = rw e (
      concat_map-In (role_permissions st.roles) group.roles role p i
        (role_permissions_complete st.roles role f))

  from_user :
      (st : State) (o : Option User)
      → In p (permissions_of_user st o)
      → (user : User) × (o ≡ some user)
        × (name : String) × In name user.user_groups
        × FromGroup st name p
  from_user st none m = elim m [ ]
  from_user st (some user) m =
      let (name, i, j) = In-concat_map (group_permissions st) user.user_groups p m in
      (user, refl, name, i, group_permissions_sound st name j)

  pub Inherits-iff :
      (st : State) (username : String)
      → In p (aggregate_group_permissions st username) ↔ Inherits st username p
  unfolding aggregate_group_permissions
  Inherits-iff st username = (
    λ m. from_user st (Dict.get st.users username) m,
    λ (user, e, name, i, f). rw e (
        concat_map-In (group_permissions st) user.user_groups name p i
          (group_permissions_complete st name f)),
  )

module _ (st : State) (key : SessionKey) (required : Action) (context context_user : Option String)
    (username : String) (perms : List Permission)
    (cached : Dict.get st.sessions.active_sessions key ≡ some (username, perms)) where
  -- The answer for a cached session, which is never `none`.
  pub check_auth_cached :
      check_auth st key required context context_user
      ≡ some (
          if any
            (allows st required context context_user username)
            (perms ++ aggregate_group_permissions st username)
          then authorized
          else unauthorized)
  unfolding check_auth
  check_auth_cached = rw (cached, check_auth) refl

  granted :
      check_auth st key required context context_user ≡ some authorized
      → any
          (allows st required context context_user username)
          (perms ++ aggregate_group_permissions st username)
        ≡ true
  granted h = ground (arith, check_auth_cached)

  -- A cached session is authorised exactly if a permission of its own or one that its user
  -- inherits from a group allows the request.
  pub check_auth_iff : (check_auth st key required context context_user ≡ some authorized) ↔ (
      (p : Permission) × (In p perms ⊎ Inherits st username p)
      × Allows st required context context_user username p)
  check_auth_iff = (
    λ h.
        let test = allows st required context context_user username in
        let (p, m, q) =
          any-In test (perms ++ aggregate_group_permissions st username) (granted h) in
        (
          p,
          own_or_inherited p (In-append p perms (aggregate_group_permissions st username) m),
          (allows_iff st required context context_user username p).0 q,
        ),
    λ (p, m, a). rw check_auth_cached (
        rw
          (In-any (allows st required context context_user username)
            (perms ++ aggregate_group_permissions st username) p
            (elim m [
              | inl own ↦ In-append_left p perms (aggregate_group_permissions st username) own
              | inr inherited ↦
                  In-append_right p perms (aggregate_group_permissions st username)
                    ((Inherits-iff p st username).1 inherited)
            ])
            ((allows_iff st required context context_user username p).1 a))
          refl),
  )
    where
      own_or_inherited :
          (p : Permission)
          → In p perms ⊎ In p (aggregate_group_permissions st username)
          → In p perms ⊎ Inherits st username p
      own_or_inherited p (inl own) = inl own
      own_or_inherited p (inr m) = inr ((Inherits-iff p st username).0 m)
