-- ===== src/Handlers/Consistency/Creation.antt =====
-- handlers/http/rbac.rs, `post_user`: a user who is made keeps the stored metadata and the maps in
-- agreement.
use parseable.Prelude.{
  is_empty, string_eq, ◌≡◌, ◌≢◌, sym, ap, subst, ◌∙◌, inl, inr, false, not, ◌||◌, some, List, [],
  ◌∷◌, ◌++◌, String, contains, here, there, arith, In-append, false≢true, any,
}
use parseable.Dict.{get-insert}
use parseable.Rbac.User.{userid, new_basic}
use parseable.Rbac.Users.{has_user, put_user}
use parseable.Results.{Result, ok, err, >>=-eq-ok, guard-eq-ok, ok_inj}
use parseable.Validator.{user_role_name}
use parseable.Handlers.{
  System, Io, staging_failed, RbacError, object_storage_error, non_existent_roles,
}
use parseable.Handlers.Users.{
  native_named, Body, body_roles, valid_name, checked_post, give_roles, post_user,
}
use parseable.Handlers.Mirror.{set-Mirrors, absent→not_stored}
use parseable.Handlers.Stored.{stored_user-push, push-IsUnique}
use parseable.Handlers.Consistency.{IsSound, store_checked-IsSound}
use parseable.Handlers.Consistency.Accounts.{get_metadata-eq-ok, add_roles_to_user-IsSound}

module _ (admin : String) (sys : System) (sound : IsSound admin sys) (username hash : String) where
  -- A new user whose name is not taken in memory.
  posted :
      has_user sys.memory username ≡ false
      → IsSound admin (record sys {
        metadata = record sys.metadata {
          users = sys.metadata.users ++ new_basic username hash ∷ [];
        };
        memory = put_user sys.memory (new_basic username hash);
      })
  unfolding has_user put_user new_basic userid
  posted absent =
      let fresh = absent→not_stored admin sound.users username absent in
      record {
        unique = push-IsUnique sys.metadata.users (new_basic username hash) fresh sound.unique;
        users =
            set-Mirrors admin username (some (new_basic username hash)) sound.users
              (λ j. stored_user-push sys.metadata.users (new_basic username hash) j fresh)
              (λ j. get-insert sys.memory.users username j (new_basic username hash));
        roles = sound.roles;
        held = λ u m r c. elim (In-append u sys.metadata.users (new_basic username hash ∷ []) m) [
          | inl old ↦ sound.held u old r c
          | inr (here e) ↦ absurd (false≢true (ap (λ v. contains v.roles r) (sym e) ∙ c))
          | inr (there x) ↦ elim x [ ]
        ];
        held_by_groups = sound.held_by_groups;
      }

module _ (admin : String) (to_lowercase : String → String) (io io_roles : Io) (sys : System)
    (password hash : String) (whole : io.write ≢ staging_failed)
    (whole_roles : io_roles.write ≢ staging_failed) (sound : IsSound admin sys) where
  give_roles-IsSound :
      (username : String) (response : Result RbacError (List String)) (after : System)
      → IsSound admin after
      → IsSound admin
          (give_roles to_lowercase io io_roles sys password hash username (response, after)).1
  unfolding give_roles
  give_roles-IsSound username (err e) after s = s
  give_roles-IsSound username (ok []) after s = s
  give_roles-IsSound username (ok (role ∷ roles)) after s =
      add_roles_to_user-IsSound admin io_roles after whole_roles s username (role ∷ roles)

  pub post_user-IsSound :
      (username : String) (body : Body)
      → IsSound admin (post_user to_lowercase io io_roles sys password hash username body).1
  unfolding post_user checked_post
  post_user-IsSound username body = give_roles-IsSound username _ _ (
      store_checked-IsSound object_storage_error io sys admin
        (checked_post to_lowercase io io_roles sys password hash username body)
        (λ st. put_user st (new_basic username hash)) whole sound
        λ roles metadata h.
          let (u, valid, h1) =
            >>=-eq-ok (valid_name (user_role_name to_lowercase username)) _ _ h in
          let h2 = get_metadata-eq-ok object_storage_error io sys _ _ h1 in
          let (given, read, h3) = >>=-eq-ok (body_roles body) _ _ h2 in
          let (all_there, h4) =
            guard-eq-ok (is_empty (non_existent_roles sys.memory given)) _ _ _ h3 in
          let (free, h5) =
            guard-eq-ok
              (not (has_user sys.memory username || any (native_named username) sys.metadata.users))
              _ _ _ h4 in
          subst
            (λ m.
              IsSound admin (record sys {
                metadata = m;
                memory = put_user sys.memory (new_basic username hash);
              }))
            (ap (λ p. p.1) (ok_inj _ _ h5)) (posted admin sys sound username hash (ground arith)))
