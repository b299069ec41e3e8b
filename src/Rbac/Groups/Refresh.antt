-- ===== src/Rbac/Groups/Refresh.antt =====
-- rbac/user.rs, `UserGroup`: the sessions that end when a group changes.
use parseable.Prelude.{
  is_empty, string_eq, ◌≡◌, refl, ap, subst, ◌∙◌, inl, inr, Bool, true, false, none, List, [], ◌∷◌,
  ==_iff, String, all, map, contains, arith, Bool-cases, In, here, there, contains-In, retain-In,
}
use parseable.Dict
use parseable.Rbac.User.{UserGroup, GroupUser, difference, set_eq}
use parseable.Rbac.User.Sets.{contains-difference}
use parseable.Rbac.Sessions.{Sessions, SessionKey, key_eq}
use parseable.Rbac.Sessions.Removal.{tracked}
use parseable.Rbac.Sessions.Each.{ended}
use parseable.Rbac.Groups.{
  has_member, end_sessions_of, add_roles, add_users, remove_roles, removed, remove_users,
  get_userids,
}

In-is_empty {ℓ} : {A : Type ℓ} (xs : List A) (a : A) → In a xs → is_empty xs ≡ false
In-is_empty [] a m = elim m [ ]
In-is_empty (x ∷ xs) a m = refl

In-all {ℓ} :
    {A : Type ℓ} (p : A → Bool) (xs : List A) (a : A) → all p xs ≡ true → In a xs → p a ≡ true
In-all p [] a h m = elim m [ ]
In-all p (x ∷ xs) a h (here e) = ap p e ∙ ground arith
In-all p (x ∷ xs) a h (there m) = In-all p xs a (ground arith) m

userid_In :
    (users : List GroupUser) (u : GroupUser)
    → In u users
    → contains (map (λ v. v.userid) users) u.userid ≡ true
userid_In [] u m = elim m [ ]
userid_In (v ∷ users) u (here e) = ground (arith, ap (λ w. w.userid) e, ==_iff u.userid v.userid)
userid_In (v ∷ users) u (there m) = ground (arith, userid_In users u m)

-- A set from which something was taken is not the set that it was.
set_eq-difference :
    (xs ys : List String) (x : String)
    → contains xs x ≡ true
    → contains ys x ≡ true
    → set_eq xs (difference xs ys) ≡ false
unfolding set_eq
set_eq-difference xs ys x h k = elim (Bool-cases (all (contains (difference xs ys)) xs)) [
  | inl every ↦
      let kept : contains (difference xs ys) x ≡ true =
        In-all (contains (difference xs ys)) xs x every (contains-In xs x h) in
      ground (arith, contains-difference xs ys x)
  | inr some_gone ↦ rw some_gone refl
]

module _ (g : UserGroup) (s : Sessions) (k : SessionKey) where
  -- The sessions tracked for a member.
  ends_members :
      (users : List GroupUser) (i : String)
      → contains (map (λ u. u.userid) users) i ≡ true
      → tracked s i k ≡ true
      → Dict.get (end_sessions_of s users).active_sessions k ≡ none
  unfolding end_sessions_of
  ends_members users i h t = ended k s (map (λ u. u.userid) users) i h t

  module _ (i : String) (t : tracked s i k ≡ true) where
    role_lost :
        (role : String) (roles : List String)
        → contains g.roles role ≡ true
        → contains roles role ≡ true
        → contains (get_userids g) i ≡ true
        → Dict.get (remove_roles g s roles).1.active_sessions k ≡ none
    unfolding remove_roles get_userids
    role_lost role [] had taken m = cc taken
    role_lost role (r ∷ roles) had taken m =
        rw (set_eq-difference g.roles (r ∷ roles) role had taken) (ends_members g.users i m t)

    user_joined :
        (users : List GroupUser)
        → contains (map (λ u. u.userid) users) i ≡ true
        → Dict.get (add_users g s users).1.active_sessions k ≡ none
    unfolding add_users
    user_joined [] m = cc m
    user_joined (u ∷ users) m = ends_members (u ∷ users) i m t

    user_left :
        (users : List GroupUser) (u : GroupUser)
        → In u g.users
        → u.userid ≡ i
        → has_member users u ≡ true
        → Dict.get (remove_users g s users).1.active_sessions k ≡ none
    unfolding remove_users
    user_left [] u m e h = cc h
    user_left (v ∷ users) u m e h =
        let gone : In u (removed g s (v ∷ users)) =
          retain-In (has_member (v ∷ users)) g.users u m h in
        rw (In-is_empty (removed g s (v ∷ users)) u gone) (
          ends_members (removed g s (v ∷ users)) i
            (subst (λ n. contains (map (λ w. w.userid) (removed g s (v ∷ users))) n ≡ true) e
              (userid_In (removed g s (v ∷ users)) u gone))
            t)

  -- Where a group gains a role, or loses one that it has, every session that is tracked for a member
  -- ends; where users join it or leave it, every session that is tracked for one of those.
  pub group_change_ends :
      (i : String)
      → tracked s i k ≡ true
      → ((role : String) (roles : List String)
          → contains (get_userids g) i ≡ true
          → Dict.get (add_roles g s (role ∷ roles)).1.active_sessions k ≡ none)
        × ((role : String) (roles : List String)
            → contains g.roles role ≡ true
            → contains roles role ≡ true
            → contains (get_userids g) i ≡ true
            → Dict.get (remove_roles g s roles).1.active_sessions k ≡ none)
        × ((users : List GroupUser)
            → contains (map (λ u. u.userid) users) i ≡ true
            → Dict.get (add_users g s users).1.active_sessions k ≡ none)
        × ((users : List GroupUser) (u : GroupUser)
            → In u g.users
            → u.userid ≡ i
            → has_member users u ≡ true
            → Dict.get (remove_users g s users).1.active_sessions k ≡ none)
  unfolding add_roles get_userids
  group_change_ends i t =
      (λ role roles m. ends_members g.users i m t, role_lost i t, user_joined i t, user_left i t)
