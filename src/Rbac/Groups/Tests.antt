-- ===== src/Rbac/Groups/Tests.antt =====
-- Runs on a group, and the theorem at an input that meets its hypothesis.
use parseable.Prelude.{string_eq, ◌≡◌, refl, true, none, List, [], ◌∷◌, String, contains, map, In}
use parseable.Dict
use parseable.Results.{ok, err}
use parseable.Rbac.User.{UserGroup, GroupUser}
use parseable.Rbac.Sessions.{Sessions, SessionKey, basic_auth, key_eq, no_sessions}
use parseable.Rbac.State.{State}
use parseable.Rbac.Groups.{
  add_roles, add_users, remove_roles, remove_users, has_member, get_userids, validate,
  invalid_user_group_request, is_valid_group_name,
}
use parseable.Rbac.Groups.Refresh.{group_change_ends}

groups : Unit {0}
unfolding validate Dict.get is_valid_group_name
groups = tt

abbrev member : String → GroupUser
member name = record { userid = name; username = name; method = "native" }

abbrev team : UserGroup
team = record { name = "team"; roles = "readers" ∷ []; users = member "ann" ∷ member "bob" ∷ [] }

abbrev ann_key : SessionKey
ann_key = basic_auth "ann" "pw"

abbrev sessions : Sessions
sessions = record {
  active_sessions = (ann_key, ("ann", [])) ∷ [];
  user_sessions = ("ann", (ann_key, 5) ∷ []) ∷ [];
}

abbrev nobody : State
nobody = record { users = []; roles = []; user_groups = []; sessions = no_sessions; streams = [] }

-- A group of users and roles that are not there.
refused :
    validate nobody team
    ≡ err (
        invalid_user_group_request (record {
          valid_name = true;
          non_existent_roles = "readers" ∷ [];
          non_existent_users = "ann" ∷ "bob" ∷ [];
          roles_not_in_group = [];
          users_not_in_group = [];
          comments = "";
        }))
unfolding groups
refused = refl

accepted : validate nobody (record { name = "a-b_1"; roles = []; users = [] }) ≡ ok tt
unfolding groups
accepted = refl

group_change_ends_example :
    ((role : String) (roles : List String)
      → contains (get_userids team) "ann" ≡ true
      → Dict.get (add_roles team sessions (role ∷ roles)).1.active_sessions ann_key ≡ none)
    × ((role : String) (roles : List String)
        → contains team.roles role ≡ true
        → contains roles role ≡ true
        → contains (get_userids team) "ann" ≡ true
        → Dict.get (remove_roles team sessions roles).1.active_sessions ann_key ≡ none)
    × ((users : List GroupUser)
        → contains (map (λ u. u.userid) users) "ann" ≡ true
        → Dict.get (add_users team sessions users).1.active_sessions ann_key ≡ none)
    × ((users : List GroupUser) (u : GroupUser)
        → In u team.users
        → u.userid ≡ "ann"
        → has_member users u ≡ true
        → Dict.get (remove_users team sessions users).1.active_sessions ann_key ≡ none)
unfolding groups
group_change_ends_example = group_change_ends team sessions ann_key "ann" refl
