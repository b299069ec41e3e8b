-- ===== src/Handlers/Accepted.antt =====
-- handlers/http/rbac.rs and role.rs: what each handler asks of a request.
use parseable.Prelude.{
  string_eq, ◌≡◌, inl, inr, refl, ap, ◌∙◌, Bool, true, false, not, ◌&&◌, Option, none, some, String,
  List, [], ◌∷◌, all, any, contains, retain, is_empty, Bool-cases, Option-cases, arith,
}
use parseable.Dict
use parseable.Rbac.Role.{DefaultPrivilege}
use parseable.Rbac.User.{User, difference, username_by_userid}
use parseable.Rbac.Users
use parseable.Rbac.Users.{StorageMetadata, present, has_user, get_user_groups}
use parseable.Results.{Result, ok, err, is_ok, guard, ok_or, ◌>>=◌, ◌>>◌}
use parseable.Validator.{user_role_name, UsernameValidationError}
use parseable.Handlers.{
  System, Io, user_does_not_exist, RoleError, object_storage_error, get_metadata,
  non_existent_roles,
}
use parseable.Handlers.Users.{
  update_first, has_userid, native_named, checked_add_roles, checked_remove_roles, checked_delete,
  update_stored, with_roles, without_roles, roles_exist,
}
use parseable.Handlers.Roles.{checked_put, checked_delete_role, valid_name}

-- Every role of a list is defined, and every one is a role of the user.
abbrev pub are_roles : System → List String → Bool
are_roles sys roles = all (λ role. present (Dict.get sys.memory.roles role)) roles

abbrev pub are_assigned : System → String → List String → Bool
are_assigned sys id roles = all (λ role. contains (Users.get_role sys.memory id) role) roles

-- What each handler asks of a request.
abbrev pub accepts_add : Io → System → String → List String → Bool
accepts_add io sys id roles =
    has_user sys.memory id
    && (are_roles sys roles && (io.reads && any (has_userid id) sys.metadata.users))

abbrev pub accepts_remove : Io → System → String → List String → Bool
accepts_remove io sys id roles =
    has_user sys.memory id
    && (are_roles sys roles
        && (are_assigned sys id roles && (io.reads && any (has_userid id) sys.metadata.users)))

abbrev pub accepts_delete : Io → System → String → Bool
accepts_delete io sys id =
    is_empty (get_user_groups sys.memory id) && (has_user sys.memory id && io.reads)

abbrev pub accepts_password : Io → System → String → Bool
accepts_password io sys username = io.reads && any (native_named username) sys.metadata.users

abbrev pub accepts_role : Io → (String → String) → String → Bool
accepts_role io to_lowercase name = is_ok (user_role_name to_lowercase name) && io.reads

abbrev pub accepts_delete_role : Io → System → String → Bool
accepts_delete_role io sys name =
    io.reads
    && (not (any (λ u. contains u.roles name) sys.metadata.users)
        && not (any (λ g. contains g.roles name) sys.metadata.user_groups))

guard-is_ok {ℓ} : {E : Type ℓ} (b : Bool) (e : E) → is_ok (guard b e) ≡ b
guard-is_ok true e = refl
guard-is_ok false e = refl

retain-is_empty {ℓ} :
    {A : Type ℓ} (test : A → Bool) (l : List A)
    → is_empty (retain (λ a. not (test a)) l) ≡ all test l
retain-is_empty test [] = refl
retain-is_empty test (a ∷ l) = ground (arith, retain-is_empty test l)

update_first-present :
    (found : User → Bool) (change : User → User) (users : List User)
    → present (update_first found change users) ≡ any found users
unfolding update_first
update_first-present found change [] = refl
update_first-present found change (u ∷ us) = ground (arith, update_first-present found change us)

seq-is_ok {ℓ μ} :
    {E : Type ℓ} {B : Type μ} (m : Result E (Unit {0})) (k : Result E B) (a b : Bool)
    → is_ok m ≡ a
    → is_ok k ≡ b
    → is_ok (m >> k) ≡ a && b
seq-is_ok (ok u) k a b p q = ground (arith, p, q)
seq-is_ok (err e) k a b p q = ground (arith, p)

bind-is_ok {ℓ κ μ} :
    {E : Type ℓ} {A : Type κ} {B : Type μ} (m : Result E A) (k : A → Result E B) (b : Bool)
    → ((a : A) → is_ok (k a) ≡ b)
    → is_ok (m >>= k) ≡ is_ok m && b
bind-is_ok (ok a) k b h = h a
bind-is_ok (err e) k b h = refl

and_true : (b : Bool) → b && true ≡ b
and_true b = ground arith

ok_or-is_ok {ℓ κ} : {E : Type ℓ} {A : Type κ} (o : Option A) (e : E) → is_ok (ok_or o e) ≡ present o
ok_or-is_ok none e = refl
ok_or-is_ok (some a) e = refl

valid_name-is_ok : (r : Result UsernameValidationError (Unit {0})) → is_ok (valid_name r) ≡ is_ok r
valid_name-is_ok (ok u) = refl
valid_name-is_ok (err e) = refl

-- The accepted part of each handler.
module _ (io : Io) (sys : System) where
  pub update_stored-is_ok :
      (found : User → Bool) (change : User → User) (response : String)
      → is_ok (update_stored io sys found change response)
        ≡ io.reads && any found sys.metadata.users
  unfolding get_metadata
  update_stored-is_ok found change response = elim (Bool-cases io.reads) [
    | inl r ↦ rw r (
        bind-is_ok (ok_or (update_first found change sys.metadata.users) user_does_not_exist) _ true
          (λ users. refl)
        ∙ and_true _
        ∙ ok_or-is_ok (update_first found change sys.metadata.users) user_does_not_exist
        ∙ update_first-present found change sys.metadata.users)
    | inr r ↦ rw r refl
  ]

  roles_exist-is_ok : (roles : List String) → is_ok (roles_exist sys roles) ≡ are_roles sys roles
  unfolding non_existent_roles
  roles_exist-is_ok roles =
      guard-is_ok _ _ ∙ retain-is_empty (λ role. present (Dict.get sys.memory.roles role)) roles

  pub checked_add_roles-is_ok :
      (id : String) (roles : List String)
      → is_ok (checked_add_roles io sys id roles) ≡ accepts_add io sys id roles
  unfolding checked_add_roles has_user
  checked_add_roles-is_ok id roles = elim (Option-cases (Dict.get sys.memory.users id)) [
    | inl unknown ↦ rw unknown refl
    | inr (user, known) ↦ rw known (
        seq-is_ok (roles_exist sys roles) _ _ _ (roles_exist-is_ok roles)
          (update_stored-is_ok (has_userid id) (with_roles roles) (username_by_userid user)))
  ]

  pub checked_remove_roles-is_ok :
      (id : String) (roles : List String)
      → is_ok (checked_remove_roles io sys id roles) ≡ accepts_remove io sys id roles
  unfolding checked_remove_roles has_user difference
  checked_remove_roles-is_ok id roles = elim (Option-cases (Dict.get sys.memory.users id)) [
    | inl unknown ↦ rw unknown refl
    | inr (user, known) ↦ rw known (
        seq-is_ok (roles_exist sys roles) _ _ _ (roles_exist-is_ok roles) (
          seq-is_ok _ _ _ _
            (guard-is_ok _ _
              ∙ retain-is_empty (λ role. contains (Users.get_role sys.memory id) role) roles)
            (update_stored-is_ok (has_userid id) (without_roles roles) (username_by_userid user))))
  ]

  pub checked_delete-is_ok :
      (id : String) → is_ok (checked_delete io sys id) ≡ accepts_delete io sys id
  unfolding checked_delete has_user get_metadata
  checked_delete-is_ok id = elim (Bool-cases (is_empty (get_user_groups sys.memory id))) [
    | inl no_group ↦ elim (Option-cases (Dict.get sys.memory.users id)) [
      | inl unknown ↦ rw (no_group, unknown) refl
      | inr (user, known) ↦ elim (Bool-cases io.reads) [
        | inl r ↦ rw (no_group, known, r) refl
        | inr r ↦ rw (no_group, known, r) refl
      ]
    ]
    | inr in_group ↦ rw in_group refl
  ]

  pub checked_put-is_ok :
      (to_lowercase : String → String) (name : String) (privileges : List DefaultPrivilege)
      → is_ok (checked_put io sys to_lowercase name privileges) ≡ accepts_role io to_lowercase name
  unfolding checked_put get_metadata
  checked_put-is_ok to_lowercase name privileges =
      bind-is_ok (valid_name (user_role_name to_lowercase name)) _ io.reads (λ u.
        bind-is_ok (get_metadata object_storage_error io sys) _ true (λ metadata. refl)
        ∙ and_true _
        ∙ reads)
      ∙ ap (λ b. b && io.reads) (valid_name-is_ok (user_role_name to_lowercase name))
    where
      reads : is_ok (get_metadata {E = RoleError} object_storage_error io sys) ≡ io.reads
      reads = ground arith

  pub checked_delete_role-is_ok :
      (name : String) → is_ok (checked_delete_role io sys name) ≡ accepts_delete_role io sys name
  unfolding checked_delete_role get_metadata
  checked_delete_role-is_ok name = elim (Bool-cases io.reads) [
    | inl r ↦ elim (Bool-cases (any (λ u. contains u.roles name) sys.metadata.users)) [
      | inl h ↦ rw (r, h) refl
      | inr h ↦ elim (Bool-cases (any (λ g. contains g.roles name) sys.metadata.user_groups)) [
        | inl k ↦ rw (r, h, k) refl
        | inr k ↦ rw (r, h, k) refl
      ]
    ]
    | inr r ↦ rw r refl
  ]
