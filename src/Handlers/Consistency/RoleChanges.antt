-- ===== src/Handlers/Consistency/RoleChanges.antt =====
-- handlers/http/role.rs: each handler for roles keeps the stored metadata and the maps in agreement.
use parseable.Prelude.{
  string_eq, ◌≡◌, ◌≢◌, sym, ap, subst, ◌∙◌, inl, inr, true, false, not, Option, none, some, List,
  String, contains, arith, In-any, false≢true, ==_ne, Bool-cases, any,
}
use parseable.Dict
use parseable.Dict.{get-insert, get-remove}
use parseable.Rbac.Role.{DefaultPrivilege}
use parseable.Rbac.Users.{present}
use parseable.Results.{>>=-eq-ok, guard-eq-ok, ok_inj}
use parseable.Validator.{user_role_name}
use parseable.Handlers.{System, Io, staging_failed, RoleError, object_storage_error, get_metadata}
use parseable.Handlers.Roles
use parseable.Handlers.Roles.{checked_put, checked_delete_role, put_role, valid_name, put_default}
use parseable.Handlers.Mirror.{set-Mirrors}
use parseable.Handlers.Consistency.{
  IsSound, admin_role, put_and_update-IsSound, store_checked-IsSound,
}
use parseable.Handlers.Consistency.Accounts.{get_metadata-eq-ok}

module _ (admin : String) (sys : System) (sound : IsSound admin sys) (name : String) where
  defined :
      (privileges : List DefaultPrivilege)
      → IsSound admin (record sys {
        metadata = record sys.metadata { roles = Dict.insert sys.metadata.roles name privileges };
        memory = put_role name privileges sys.memory;
      })
  unfolding put_role
  defined privileges = record {
    unique = sound.unique;
    users = sound.users;
    roles =
        set-Mirrors admin_role name (some privileges) sound.roles
          (λ j. get-insert sys.metadata.roles name j privileges)
          (λ j. get-insert sys.memory.roles name j privileges);
    held = λ u m r c. kept r (sound.held u m r c);
    held_by_groups = λ g m r c. kept r (sound.held_by_groups g m r c);
  }
    where
      kept :
          (r : String)
          → present (Dict.get sys.memory.roles r) ≡ true
          → present (Dict.get (Dict.insert sys.memory.roles name privileges) r) ≡ true
      kept r h = ground (arith, get-insert sys.memory.roles name r privileges)

  -- A role that no user and no group holds.
  dropped :
      any (λ u. contains u.roles name) sys.metadata.users ≡ false
      → any (λ g. contains g.roles name) sys.metadata.user_groups ≡ false
      → IsSound admin (record sys {
        metadata = record sys.metadata { roles = Dict.remove sys.metadata.roles name };
        memory = record sys.memory { roles = Dict.remove sys.memory.roles name };
      })
  dropped no_user no_group = record {
    unique = sound.unique;
    users = sound.users;
    roles =
        set-Mirrors admin_role name none sound.roles (get-remove sys.metadata.roles name)
          (get-remove sys.memory.roles name);
    held = λ u m r c. kept r (sound.held u m r c) λ e. false≢true (
        sym no_user
        ∙ In-any (λ v. contains v.roles name) sys.metadata.users u m (ap (contains u.roles) e ∙ c));
    held_by_groups = λ g m r c. kept r (sound.held_by_groups g m r c) λ e. false≢true (
        sym no_group
        ∙ In-any (λ v. contains v.roles name) sys.metadata.user_groups g m
            (ap (contains g.roles) e ∙ c));
  }
    where
      kept :
          (r : String)
          → present (Dict.get sys.memory.roles r) ≡ true
          → name ≢ r
          → present (Dict.get (Dict.remove sys.memory.roles name) r) ≡ true
      kept r h differ = ground (arith, get-remove sys.memory.roles name r, ==_ne name r differ)

module _ (admin : String) (io : Io) (sys : System) (whole : io.write ≢ staging_failed)
    (sound : IsSound admin sys) where
  pub put-IsSound :
      (to_lowercase : String → String) (name : String) (privileges : List DefaultPrivilege)
      → IsSound admin (Roles.put io sys to_lowercase name privileges).1
  unfolding Roles.put checked_put
  put-IsSound to_lowercase name privileges =
      store_checked-IsSound object_storage_error io sys admin
        (checked_put io sys to_lowercase name privileges) (put_role name privileges) whole sound
        λ r metadata h.
          let (u, valid, h1) = >>=-eq-ok (valid_name (user_role_name to_lowercase name)) _ _ h in
          let h2 = get_metadata-eq-ok object_storage_error io sys _ _ h1 in
          subst
            (λ m.
              IsSound admin
                (record sys { metadata = m; memory = put_role name privileges sys.memory }))
            (ap (λ p. p.1) (ok_inj _ _ h2)) (defined admin sys sound name privileges)

  pub delete-IsSound : (name : String) → IsSound admin (Roles.delete io sys name).1
  unfolding Roles.delete checked_delete_role
  delete-IsSound name =
      store_checked-IsSound object_storage_error io sys admin (checked_delete_role io sys name)
        (λ st. record st { roles = Dict.remove st.roles name }) whole sound
        λ r metadata h.
          let h1 = get_metadata-eq-ok object_storage_error io sys _ _ h in
          let (no_user, h2) =
            guard-eq-ok (not (any (λ u. contains u.roles name) sys.metadata.users)) _ _ _ h1 in
          let (no_group, h3) =
            guard-eq-ok (not (any (λ g. contains g.roles name) sys.metadata.user_groups)) _ _ _
              h2 in
          subst
            (λ m. IsSound admin (record sys {
              metadata = m;
              memory = record sys.memory { roles = Dict.remove sys.memory.roles name };
            }))
            (ap (λ p. p.1) (ok_inj _ _ h3))
            (dropped admin sys sound name (ground arith) (ground arith))

  -- The default role is no part of what must agree.
  named :
      (live stored : Option String)
      → IsSound admin (record sys {
        metadata = record sys.metadata { default_role = stored };
        default_role = live;
      })
  named live stored = record {
    unique = sound.unique;
    users = sound.users;
    roles = sound.roles;
    held = sound.held;
    held_by_groups = sound.held_by_groups;
  }

  pub put_default-IsSound : (name : String) → IsSound admin (put_default io sys name).1
  unfolding put_default get_metadata
  put_default-IsSound name = elim (Bool-cases io.reads) [
    | inl r ↦ rw r (
        put_and_update-IsSound {E = RoleError} object_storage_error tt
          (record { reads = true; write = io.write }) (record sys { default_role = some name })
          admin (record sys.metadata { default_role = some name }) (λ st. st) whole
          (named (some name) sys.metadata.default_role) (named (some name) (some name)))
    | inr r ↦ rw r sound
  ]
