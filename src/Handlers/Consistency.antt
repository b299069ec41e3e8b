-- ===== src/Handlers/Consistency.antt =====
-- handlers/http/rbac.rs and role.rs: when the stored metadata and the maps in memory agree, and what
-- a handler keeps of it.

pub mod Accounts
pub mod Requests
pub mod Creation
pub mod RoleChanges
use parseable.Prelude.{
  string_eq, ◌≡◌, ◌≢◌, refl, sym, ap, subst, ◌∙◌, ◌⊎◌, inl, inr, Bool, true, false, not, Option,
  none, some, List, [], ◌∷◌, ◌==◌, String, if◌then◌else◌, contains, In, arith,
}
use parseable.Dict
use parseable.Rbac.User.{User, UserGroup, userid}
use parseable.Rbac.State.{State}
use parseable.Rbac.Users.{StorageMetadata, present}
use parseable.Results.{Result, ok, err}
use parseable.Handlers.{
  System, Io, Write, written, remote_failed, staging_failed, put_and_update, store_checked,
}
use parseable.Handlers.Users.{update_first}
use parseable.Handlers.Mirror.{Mirrors, set-Mirrors, stored→live}
use parseable.Handlers.Stored.{
  stored_user, IsUnique, update_first_lem, update_first-IsUnique, In-update_first,
}

abbrev pub admin_role : String
admin_role = "admin"

-- The stored users have different ids; users and roles are looked up with one result in the
-- metadata and in memory, but for the configured admin and its role, which may be in memory alone;
-- each role that a stored user or group has is there.
pub record IsSound (admin : String) (sys : System) : Type 0 where
  pub unique : IsUnique sys.metadata.users
  pub users : Mirrors admin (stored_user sys.metadata.users) (Dict.get sys.memory.users)
  pub roles : Mirrors admin_role (Dict.get sys.metadata.roles) (Dict.get sys.memory.roles)
  pub held :
      (u : User)
      → In u sys.metadata.users
      → (r : String) → contains u.roles r ≡ true
      → present (Dict.get sys.memory.roles r) ≡ true
  pub held_by_groups :
      (g : UserGroup)
      → In g sys.metadata.user_groups
      → (r : String) → contains g.roles r ≡ true
      → present (Dict.get sys.memory.roles r) ≡ true

-- A handler keeps it where the state after both changes has it, and the second of the two copies
-- is not the one that fails.
pub put_and_update-IsSound {ℓ κ} :
    {E : Type ℓ} {R : Type κ} (e : E) (r : R) (io : Io) (sys : System) (admin : String)
    (metadata : StorageMetadata) (update : State → State)
    → io.write ≢ staging_failed
    → IsSound admin sys
    → IsSound admin (record sys { metadata = metadata; memory = update sys.memory })
    → IsSound admin (put_and_update e io sys metadata update r).1
unfolding put_and_update
put_and_update-IsSound e r io sys admin metadata update not_torn before after = go io.write refl
  where
    go : (w : Write) → io.write ≡ w → IsSound admin (put_and_update e io sys metadata update r).1
    go written q = rw q after
    go remote_failed q = rw q before
    go staging_failed q = absurd (not_torn q)

-- A handler keeps it where each state that it can store has it.
pub store_checked-IsSound {ℓ κ} :
    {E : Type ℓ} {R : Type κ} (e : E) (io : Io) (sys : System) (admin : String)
    (checked : Result E (R × StorageMetadata)) (update : State → State)
    → io.write ≢ staging_failed
    → IsSound admin sys
    → ((r : R) (metadata : StorageMetadata)
        → checked ≡ ok (r, metadata)
        → IsSound admin (record sys { metadata = metadata; memory = update sys.memory }))
    → IsSound admin (store_checked e io sys checked update).1
unfolding store_checked
store_checked-IsSound e io sys admin (err x) update whole sound after = sound
store_checked-IsSound e io sys admin (ok (r, metadata)) update whole sound after =
    put_and_update-IsSound e r io sys admin metadata update whole sound (after r metadata refl)

-- A change of one stored user and the same change in memory.
module _ (admin : String) (sys : System) (i : String) (found : User → Bool) (change : User → User)
    (of_id : (u : User) → found u ≡ true → userid u ≡ i)
    (keeps : (u : User) → userid (change u) ≡ userid u)
    (held : (u : User) (r : String)
      → contains (change u).roles r ≡ true
      → (contains u.roles r ≡ true) ⊎ (present (Dict.get sys.memory.roles r) ≡ true)) where
  pub change-IsSound :
      (us : List User) (update : State → State)
      → IsSound admin sys
      → update_first found change sys.metadata.users ≡ some us
      → ((u : User)
          → Dict.get sys.memory.users i ≡ some u
          → found u ≡ true
          → (j : String)
          → Dict.get (update sys.memory).users j
            ≡ (if i == j then some (change u) else Dict.get sys.memory.users j))
      → (update sys.memory).roles ≡ sys.memory.roles
      → IsSound admin
          (record sys { metadata = record sys.metadata { users = us }; memory = update sys.memory })
  change-IsSound us update sound h live same_roles =
      let (u, at, hit, after) =
        update_first_lem i found change of_id keeps sys.metadata.users us sound.unique h in
      record {
        unique =
            update_first-IsUnique i found change of_id keeps sys.metadata.users us sound.unique h;
        users =
            set-Mirrors admin i (some (change u)) sound.users after
              (live u (stored→live admin sound.users i u at) hit);
        roles =
            subst (λ roles. Mirrors admin_role (Dict.get sys.metadata.roles) (Dict.get roles))
              (sym same_roles) sound.roles;
        held = λ w m r c.
            subst (λ roles. present (Dict.get roles r) ≡ true) (sym same_roles)
              (elim (In-update_first found change sys.metadata.users us w h m) [
                | inl old ↦ sound.held w old r c
                | inr (v, k, q) ↦ elim (held v r (ap (λ x. contains x.roles r) (sym q) ∙ c)) [
                  | inl had ↦ sound.held v k r had
                  | inr there_is ↦ there_is
                ]
              ]);
        held_by_groups = λ g m r c.
            subst (λ roles. present (Dict.get roles r) ≡ true) (sym same_roles)
              (sound.held_by_groups g m r c);
      }
