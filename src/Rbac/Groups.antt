-- ===== src/Rbac/Groups.antt =====
-- rbac/user.rs, `UserGroup`: the check of a new group, and the changes of a group with the sessions
-- that they end. A `HashSet<GroupUser>` compares ids alone, so its operations are written here.
pub mod Refresh
mod Tests
use parseable.Prelude.{
  is_empty, string_eq, ℕ, Bool, true, false, not, ◌&&◌, ◌||◌, Option, none, some, List, [], ◌∷◌,
  ◌++◌, ◌==◌, String, if◌then◌else◌, any, all, map, retain, contains, eqb, leb,
}
use parseable.Dict
use parseable.Results.{Result, ok, err}
use parseable.Validator.{chars, is_ascii_alphanumeric}
use parseable.Rbac.User.{
  User, UserGroup, GroupUser, same_group_user, extend, difference, set_eq, from_user,
}
use parseable.Rbac.Sessions
use parseable.Rbac.Sessions.{Sessions}
use parseable.Rbac.State.{State}
use parseable.Rbac.Users.{StorageMetadata, present}

-- `^[A-Za-z0-9_-]+$`
unfoldable pub is_valid_group_name : String → Bool
unfolding is_ascii_alphanumeric
is_valid_group_name name =
    not (is_empty (chars name))
    && all (λ c. is_ascii_alphanumeric c || eqb c 95 || eqb c 45) (chars name)

pub record InvalidUserGroupError : Type 0 where
  pub valid_name : Bool
  pub non_existent_roles : List String
  pub non_existent_users : List String
  pub roles_not_in_group : List String
  pub users_not_in_group : List String
  pub comments : String

pub data GroupError : Type 0 where
  user_group_exists : String → GroupError
  invalid_user_group_request : InvalidUserGroupError → GroupError

abbrev missing_roles : State → UserGroup → List String
missing_roles st g = retain (λ role. not (present (Dict.get st.roles role))) g.roles

abbrev missing_users : State → UserGroup → List String
missing_users st g =
    map (λ u. u.userid) (retain (λ u. not (present (Dict.get st.users u.userid))) g.users)

unfoldable pub validate : State → UserGroup → Result GroupError (Unit {0})
unfolding is_valid_group_name
validate st g =
    if present (Dict.get st.user_groups g.name)
    then err (user_group_exists g.name)
    else if not (is_empty (missing_roles st g))
        || not (is_empty (missing_users st g))
        || not (is_valid_group_name g.name)
    then err (
        invalid_user_group_request (record {
          valid_name = is_valid_group_name g.name;
          non_existent_roles = missing_roles st g;
          non_existent_users = missing_users st g;
          roles_not_in_group = [];
          users_not_in_group = [];
          comments =
              if is_valid_group_name g.name
              then ""
              else "The name should follow this regex- `^[A-Za-z0-9_-]+$`";
        }))
    else ok tt

-- `HashSet<GroupUser>`: `contains`, `extend`, `difference` and `intersection`.
abbrev pub has_member : List GroupUser → GroupUser → Bool
has_member users u = any (same_group_user u) users

unfoldable pub extend_users : List GroupUser → List GroupUser → List GroupUser
unfolding same_group_user
extend_users users [] = users
extend_users users (u ∷ us) =
    extend_users (if has_member users u then users else users ++ u ∷ []) us

-- `mut_sessions().remove_user` for each user.
unfoldable pub end_sessions_of : Sessions → List GroupUser → Sessions
end_sessions_of s users = Sessions.remove_each s (map (λ u. u.userid) users)

-- Each change gives the group and the sessions after it.
module _ (g : UserGroup) (s : Sessions) where
  unfoldable pub add_roles : List String → UserGroup × Sessions
  unfolding end_sessions_of
  add_roles [] = (g, s)
  add_roles (role ∷ roles) =
      (record g { roles = extend g.roles (role ∷ roles) }, end_sessions_of s g.users)

  unfoldable pub add_users : List GroupUser → UserGroup × Sessions
  unfolding end_sessions_of extend_users
  add_users [] = (g, s)
  add_users (u ∷ users) =
      (record g { users = extend_users g.users (u ∷ users) }, end_sessions_of s (u ∷ users))

  unfoldable pub remove_roles : List String → UserGroup × Sessions
  unfolding end_sessions_of
  remove_roles [] = (g, s)
  remove_roles (role ∷ roles) =
      if set_eq g.roles (difference g.roles (role ∷ roles))
      then (g, s)
      else (record g { roles = difference g.roles (role ∷ roles) }, end_sessions_of s g.users)

  abbrev pub removed : List GroupUser → List GroupUser
  removed users = retain (λ u. has_member users u) g.users

  unfoldable pub remove_users : List GroupUser → UserGroup × Sessions
  unfolding end_sessions_of same_group_user
  remove_users [] = (g, s)
  remove_users (u ∷ users) = if is_empty (removed (u ∷ users)) then (g, s) else (
    record g { users = retain (λ v. not (has_member (u ∷ users) v)) g.users },
    end_sessions_of s (removed (u ∷ users)),
  )

  unfoldable pub add_users_from_user_refs : List User → UserGroup × Sessions
  unfolding add_users from_user
  add_users_from_user_refs users = add_users (extend_users [] (map from_user users))

  unfoldable pub remove_users_by_user_ids : List String → UserGroup × Sessions
  unfolding remove_users
  remove_users_by_user_ids [] = (g, s)
  remove_users_by_user_ids (id ∷ ids) =
      remove_users (retain (λ u. contains (id ∷ ids) u.userid) g.users)

unfoldable pub get_userids : UserGroup → List String
get_userids g = map (λ u. u.userid) g.users

-- The metadata that `update_in_metadata` stores.
unfoldable pub update_in_metadata : UserGroup → StorageMetadata → StorageMetadata
update_in_metadata g metadata = record metadata {
  user_groups = retain (λ x. not (x.name == g.name)) metadata.user_groups ++ g ∷ [];
}
