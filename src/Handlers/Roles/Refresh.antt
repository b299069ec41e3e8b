-- ===== src/Handlers/Roles/Refresh.antt =====
-- handlers/http/role.rs, `put`: which sessions end when a role is defined anew.
use parseable.Prelude.{
  string_eq, ◌≡◌, refl, sym, ◌∙◌, inl, inr, Bool, true, false, ◌||◌, ◌&&◌, false≢true, any-In, none,
  List, [], ◌∷◌, ◌==◌, ==_iff, String, contains, arith, Bool-cases, any, In-contains,
}
use parseable.Dict
use parseable.Dict.{Dict}
use parseable.Rbac.Role.{DefaultPrivilege}
use parseable.Rbac.User.{User, UserGroup, extend, userid}
use parseable.Rbac.User.Sets.{contains-extend}
use parseable.Rbac.Sessions.{SessionKey, key_eq}
use parseable.Rbac.Sessions.Removal.{tracked}
use parseable.Rbac.Sessions.Each.{get-remove_each, ended}
use parseable.Rbac.State.{State}
use parseable.Handlers.Roles.{ids_of, group_users, role_users, session_refresh_users, put_role}

-- Who has a role: as a member of a group that has it, or by itself.
abbrev grants : String → String → String × UserGroup → Bool
grants name i (key, group) = contains group.roles name && contains (ids_of group.users) i

abbrev has : String → String → String × User → Bool
has name i (key, user) = contains user.roles name && userid user == i

abbrev pub holds_role : State → String → String → Bool
holds_role st name i = any (grants name i) st.user_groups || any (has name i) st.users

contains-group_users :
    (name : String) (groups : Dict String UserGroup) (refresh : List String) (i : String)
    → contains (group_users name groups refresh) i
      ≡ contains refresh i || any (grants name i) groups
unfolding group_users
contains-group_users name [] refresh i = ground arith
contains-group_users name ((key, g) ∷ groups) refresh i = ground (
  arith,
  contains-group_users name groups refresh i,
  contains-group_users name groups (extend refresh (ids_of g.users)) i,
  contains-extend refresh (ids_of g.users) i,
)

contains-role_users :
    (name : String) (users : Dict String User) (refresh : List String) (i : String)
    → contains (role_users name users refresh) i ≡ contains refresh i || any (has name i) users
unfolding role_users
contains-role_users name [] refresh i = ground arith
contains-role_users name ((key, u) ∷ users) refresh i = ground (
  arith,
  contains-role_users name users refresh i,
  contains-role_users name users (extend refresh (userid u ∷ [])) i,
  contains-extend refresh (userid u ∷ []) i,
  ==_iff (userid u) i,
  ==_iff i (userid u),
)

contains-session_refresh_users :
    (st : State) (name i : String)
    → contains (session_refresh_users st name) i ≡ holds_role st name i
unfolding session_refresh_users
contains-session_refresh_users st name i = ground (
  arith,
  contains-role_users name st.users (group_users name st.user_groups []) i,
  contains-group_users name st.user_groups [] i,
)

module _ (k : SessionKey) where
  -- Defining a role anew ends each session that is tracked for a user who has the role, by itself
  -- or from a group, and no session that is tracked for none of them.
  pub put_role_ends :
      (st : State) (name : String) (privileges : List DefaultPrivilege)
      → ((i : String)
          → holds_role st name i ≡ true
          → tracked st.sessions i k ≡ true
          → Dict.get (put_role name privileges st).sessions.active_sessions k ≡ none)
        × (((i : String) → holds_role st name i ≡ true → tracked st.sessions i k ≡ false)
            → Dict.get (put_role name privileges st).sessions.active_sessions k
              ≡ Dict.get st.sessions.active_sessions k)
  unfolding put_role
  put_role_ends st name privileges =
      let after = get-remove_each k (session_refresh_users st name) st.sessions in
      (
        λ i h t.
            ended k st.sessions (session_refresh_users st name) i
              (contains-session_refresh_users st name i ∙ h) t,
        λ none_tracked.
            elim (Bool-cases (any (λ n. tracked st.sessions n k) (session_refresh_users st name))) [
              | inl q ↦
                  let (i, m, t) =
                    any-In (λ n. tracked st.sessions n k) (session_refresh_users st name) q in
                  absurd (
                    false≢true (
                      sym (
                        none_tracked i (
                          sym (contains-session_refresh_users st name i)
                          ∙ In-contains (session_refresh_users st name) i m))
                      ∙ t))
              | inr q ↦ after ∙ rw q refl
            ],
      )
