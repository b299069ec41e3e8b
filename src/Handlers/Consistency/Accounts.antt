-- ===== src/Handlers/Consistency/Accounts.antt =====
-- handlers/http/rbac.rs: each handler for users keeps the stored metadata and the maps in agreement.
use parseable.Prelude.{
  is_empty, string_eq, ◌≡◌, ◌≢◌, refl, sym, ap, subst, ◌∙◌, ◌⊎◌, inl, inr, Bool, true, not, none,
  some, List, [], ◌∷◌, ◌==◌, ==_iff, String, if◌then◌else◌, contains, arith, retain, In-retain,
  Bool-cases, Option-cases,
}
use parseable.Dict
use parseable.Dict.{get-insert, get-remove}
use parseable.Rbac.User.{
  User, UserType, native, oauth, Basic, userid, difference, username_by_userid, userid_of_type,
}
use parseable.Rbac.User.Sets.{contains-extend, contains-difference}
use parseable.Rbac.State.{State}
use parseable.Rbac.Users
use parseable.Rbac.Users.{StorageMetadata, present, has_user, get_user_groups, with_hash, put_user}
use parseable.Rbac.Users.Maps.{
  users-add_roles, users-remove_roles, users-change_password_hash, roles-add_roles,
  roles-remove_roles, roles-change_password_hash,
}
use parseable.Results.{Result, ok, err, ◌>>=◌, >>=-eq-ok, guard-eq-ok, ok_inj}
use parseable.Handlers.{
  System, Io, staging_failed, RbacError, object_storage_error, get_metadata, non_existent_roles,
}
use parseable.Handlers.Users.{
  checked_gen_password, native_named_type, update_first, has_userid, native_named, set_hash,
  with_hash_type, with_roles, without_roles, existing_user, update_stored, checked_add_roles,
  add_roles_to_user, checked_remove_roles, remove_roles_from_user, checked_delete, delete_user,
  post_gen_password,
}
use parseable.Handlers.Mirror.{set-Mirrors}
use parseable.Handlers.Stored.{stored_user-retain, retain-IsUnique}
use parseable.Handlers.Consistency.{IsSound, store_checked-IsSound, change-IsSound}

-- A handler that has read the metadata goes on with what is stored.
pub get_metadata-eq-ok {ℓ κ} :
    {E : Type ℓ} {A : Type κ} (e : E) (io : Io) (sys : System) (k : StorageMetadata → Result E A)
    (a : A)
    → (get_metadata e io sys >>= k) ≡ ok a
    → k sys.metadata ≡ ok a
unfolding get_metadata
get_metadata-eq-ok e io sys k a h = elim (Bool-cases io.reads) [
  | inl r ↦ sym (ap (λ b. (if b then ok sys.metadata else err e) >>= k) r) ∙ h
  | inr r ↦ cc (h, r)
]

-- What a handler stores at its end.
pub stored_at_end :
    (response name : String) (stored metadata : StorageMetadata)
    → ◌≡◌ {A = Result RbacError (String × StorageMetadata)}
        (ok (response, stored))
        (ok (name, metadata))
    → metadata ≡ stored
stored_at_end response name stored metadata h = ap (λ p. p.1) (sym (ok_inj _ _ h))

-- A native user that a name finds, and what stays when its hash changes.
native_named_type_lem :
    (username : String) (t : UserType)
    → native_named_type username t ≡ true
    → (basic : Basic) × (t ≡ native basic) × (userid_of_type t ≡ username)
native_named_type_lem username (native b) h = (b, refl, (==_iff b.username username).0 h)
native_named_type_lem username (oauth o) h = cc h

userid_of_type-with_hash_type :
    (hash : String) (t : UserType) → userid_of_type (with_hash_type hash t) ≡ userid_of_type t
userid_of_type-with_hash_type hash (native b) = refl
userid_of_type-with_hash_type hash (oauth o) = refl

set_hash-native :
    (hash : String) (basic : Basic) (u : User)
    → u.ty ≡ native basic
    → record u { ty = native (record basic { password_hash = hash }) } ≡ set_hash hash u
set_hash-native hash basic u e = rw e refl

abbrev with_users : List User → StorageMetadata → StorageMetadata
with_users us metadata = record metadata { users = us }

update_stored-eq-ok :
    (io : Io) (sys : System) (found : User → Bool) (change : User → User) (response name : String)
    (metadata : StorageMetadata)
    → update_stored io sys found change response ≡ ok (name, metadata)
    → (us : List User) × (update_first found change sys.metadata.users ≡ some us)
      × (metadata ≡ with_users us sys.metadata)
unfolding get_metadata
update_stored-eq-ok io sys found change response name metadata h = elim (Bool-cases io.reads) [
  | inl r ↦ elim (Option-cases (update_first found change sys.metadata.users)) [
    | inl e ↦ cc (h, r, e)
    | inr (us, e) ↦ (us, e, ground (arith, h, r, e))
  ]
  | inr r ↦ cc (h, r)
]

-- Roles that a request names, where none of them is missing.
pub is_empty-non_existent_roles :
    (st : State) (roles : List String) (r : String)
    → is_empty (non_existent_roles st roles) ≡ true
    → contains roles r ≡ true
    → present (Dict.get st.roles r) ≡ true
unfolding non_existent_roles
is_empty-non_existent_roles st [] r h c = cc
is_empty-non_existent_roles st (s ∷ roles) r h c =
    elim (Bool-cases (present (Dict.get st.roles s))) [
      | inl known ↦ elim (Bool-cases (r == s)) [
        | inl same ↦ ap (λ n. present (Dict.get st.roles n)) ((==_iff r s).0 same) ∙ known
        | inr differ ↦ is_empty-non_existent_roles st roles r (ground arith) (ground arith)
      ]
      | inr unknown ↦ ground arith
    ]

module _ (admin : String) (io : Io) (sys : System) (whole : io.write ≢ staging_failed)
    (sound : IsSound admin sys) where
  -- A handler whose last step changes one stored user, and the same user in memory.
  update_stored-IsSound :
      (i : String) (found : User → Bool) (change : User → User) (update : State → State)
      (response name : String) (metadata : StorageMetadata)
      → ((u : User) → found u ≡ true → userid u ≡ i)
      → ((u : User) → userid (change u) ≡ userid u)
      → ((u : User) (r : String)
          → contains (change u).roles r ≡ true
          → (contains u.roles r ≡ true) ⊎ (present (Dict.get sys.memory.roles r) ≡ true))
      → ((u : User)
          → Dict.get sys.memory.users i ≡ some u
          → found u ≡ true
          → (j : String)
          → Dict.get (update sys.memory).users j
            ≡ (if i == j then some (change u) else Dict.get sys.memory.users j))
      → (update sys.memory).roles ≡ sys.memory.roles
      → update_stored io sys found change response ≡ ok (name, metadata)
      → IsSound admin (record sys { metadata = metadata; memory = update sys.memory })
  update_stored-IsSound i found change update response name metadata of_id keeps held live same h =
      let (us, updated, e) = update_stored-eq-ok io sys found change response name metadata h in
      subst (λ m. IsSound admin (record sys { metadata = m; memory = update sys.memory })) (sym e)
        (change-IsSound admin sys i found change of_id keeps held us update sound updated live same)

  pub add_roles_to_user-IsSound :
      (id : String) (roles : List String) → IsSound admin (add_roles_to_user io sys id roles).1
  unfolding add_roles_to_user checked_add_roles userid
  add_roles_to_user-IsSound id roles =
      store_checked-IsSound object_storage_error io sys admin (checked_add_roles io sys id roles)
        (λ st. Users.add_roles st id roles) whole sound
        λ name metadata h.
          let (known, h1) = guard-eq-ok (has_user sys.memory id) _ _ _ h in
          let (user, found, h2) = >>=-eq-ok (existing_user sys id) _ _ h1 in
          let (all_there, h3) =
            guard-eq-ok (is_empty (non_existent_roles sys.memory roles)) _ _ _ h2 in
          update_stored-IsSound id (has_userid id) (with_roles roles)
            (λ st. Users.add_roles st id roles) (username_by_userid user) name metadata
            (λ u. (==_iff (userid u) id).0) (λ u. refl)
            (λ u r c. elim (Bool-cases (contains u.roles r)) [
              | inl had ↦ inl had
              | inr had_not ↦ inr (
                  is_empty-non_existent_roles sys.memory roles r all_there
                    (ground (arith, contains-extend u.roles roles r)))
            ])
            (λ u live hit. users-add_roles sys.memory id u live roles)
            (roles-add_roles sys.memory id roles) h3

  pub remove_roles_from_user-IsSound :
      (id : String) (roles : List String) → IsSound admin (remove_roles_from_user io sys id roles).1
  unfolding remove_roles_from_user checked_remove_roles userid
  remove_roles_from_user-IsSound id roles =
      store_checked-IsSound object_storage_error io sys admin (checked_remove_roles io sys id roles)
        (λ st. Users.remove_roles st id roles) whole sound
        λ name metadata h.
          let (known, h1) = guard-eq-ok (has_user sys.memory id) _ _ _ h in
          let (user, found, h2) = >>=-eq-ok (existing_user sys id) _ _ h1 in
          let (all_there, h3) =
            guard-eq-ok (is_empty (non_existent_roles sys.memory roles)) _ _ _ h2 in
          let (all_held, h4) =
            guard-eq-ok (is_empty (difference roles (Users.get_role sys.memory id))) _ _ _ h3 in
          update_stored-IsSound id (has_userid id) (without_roles roles)
            (λ st. Users.remove_roles st id roles) (username_by_userid user) name metadata
            (λ u. (==_iff (userid u) id).0) (λ u. refl)
            (λ u r c. inl (ground (arith, contains-difference u.roles roles r)))
            (λ u live hit. users-remove_roles sys.memory id u live roles)
            (roles-remove_roles sys.memory id roles) h4

  deleted :
      (id : String)
      → IsSound admin (record sys {
        metadata = record sys.metadata {
          users = retain (λ u. not (userid u == id)) sys.metadata.users;
        };
        memory = Users.delete_user sys.memory id;
      })
  unfolding Users.delete_user
  deleted id = record {
    unique = retain-IsUnique sys.metadata.users id sound.unique;
    users =
        set-Mirrors admin id none sound.users (stored_user-retain sys.metadata.users id)
          (get-remove sys.memory.users id);
    roles = sound.roles;
    held = λ u m r c.
        sound.held u (In-retain (λ u. not (userid u == id)) sys.metadata.users u m).0 r c;
    held_by_groups = sound.held_by_groups;
  }

  pub delete_user-IsSound : (id : String) → IsSound admin (delete_user io sys id).1
  unfolding delete_user checked_delete Users.delete_user
  delete_user-IsSound id =
      store_checked-IsSound object_storage_error io sys admin (checked_delete io sys id)
        (λ st. Users.delete_user st id) whole sound
        λ name metadata h.
          let (apart, h1) = guard-eq-ok (is_empty (get_user_groups sys.memory id)) _ _ _ h in
          let (known, h2) = guard-eq-ok (has_user sys.memory id) _ _ _ h1 in
          let (user, found, h3) = >>=-eq-ok (existing_user sys id) _ _ h2 in
          let e =
            stored_at_end (username_by_userid user) name _ metadata
              (get_metadata-eq-ok object_storage_error io sys _ _ h3) in
          subst
            (λ m.
              IsSound admin (record sys { metadata = m; memory = Users.delete_user sys.memory id }))
            (sym e) (deleted id)

  pub post_gen_password-IsSound :
      (password hash username : String)
      → IsSound admin (post_gen_password io sys password hash username).1
  unfolding post_gen_password checked_gen_password userid
  post_gen_password-IsSound password hash username =
      store_checked-IsSound object_storage_error io sys admin
        (checked_gen_password io sys password hash username)
        (λ st. Users.change_password_hash st username hash) whole sound
        λ name metadata h.
          update_stored-IsSound username (native_named username) (set_hash hash)
            (λ st. Users.change_password_hash st username hash) password name metadata
            (λ u e. (native_named_type_lem username u.ty e).2)
            (λ u. userid_of_type-with_hash_type hash u.ty) (λ u r c. inl c)
            (λ u live hit j.
              let (basic, ty, e) = native_named_type_lem username u.ty hit in
              subst
                (λ v.
                  Dict.get (Users.change_password_hash sys.memory username hash).users j
                  ≡ (if username == j then some v else Dict.get sys.memory.users j))
                (set_hash-native hash basic u ty)
                (users-change_password_hash sys.memory username u live hash basic j ty))
            (roles-change_password_hash sys.memory username hash) h
