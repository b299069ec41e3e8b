-- ===== src/Rbac/Role/Build.antt =====
-- rbac/role.rs, `RoleBuilder::build`: which permissions it makes, and when it panics.
use parseable.Prelude.{
  some-injective, string_eq, any, ◌≡◌, refl, sym, ap, ◌∙◌, ◌↔◌, inl, inr, true, false, false≢true,
  Option, none, some, List, [], ◌∷◌, arith, if◌then◌else◌, subst, In, here, there, Bool-cases,
}
use parseable.Rbac.Action.{Action, get_user_roles}
use parseable.Rbac.Role.{
  Permission, unit, resource, self_user, ParseableResourceType, RoleBuilder, DefaultPrivilege,
  admin, editor, writer, ingestor, reader, names_resource, with_resource, writer_perm_builder,
  ingest_perm_builder, reader_perm_builder, permission_of, build, build_from, privilege_permissions,
}

-- What a permission of a builder with a resource looks like.
abbrev pub Shape : ParseableResourceType → Permission → Type 0
Shape r (unit a) = names_resource a ≡ false
Shape r (resource a s) = (names_resource a ≡ true) × (s ≡ r)
Shape r self_user = Unit

-- The permissions of a builder with a resource, without the panic.
abbrev pub permissions_on : ParseableResourceType → List Action → List Permission
permissions_on r [] = self_user ∷ []
permissions_on r (a ∷ more) =
    (if names_resource a then resource a r else unit a) ∷ permissions_on r more

build_from-some :
    (r : ParseableResourceType) (actions : List Action)
    → build_from (some r) actions ≡ some (permissions_on r actions)
unfolding build_from
build_from-some r [] = refl
build_from-some r (a ∷ more) = rw (build_from-some r more) refl

permission-Shape :
    (r : ParseableResourceType) (a : Action)
    → Shape r (if names_resource a then resource a r else unit a)
permission-Shape r a = elim (Bool-cases (names_resource a)) [
  | inl e ↦ rw e (e, refl)
  | inr e ↦ rw e e
]

pub permissions_on-Shape :
    (r : ParseableResourceType) (actions : List Action) (p : Permission)
    → In p (permissions_on r actions)
    → Shape r p
permissions_on-Shape r [] p (here e) = subst (Shape r) (sym e) tt
permissions_on-Shape r [] p (there m) = elim m [ ]
permissions_on-Shape r (a ∷ more) p (here e) = subst (Shape r) (sym e) (permission-Shape r a)
permissions_on-Shape r (a ∷ more) p (there m) = permissions_on-Shape r more p m

-- A builder with a resource is built to one permission for each action, on that resource if the
-- action wants one, and the permission to see oneself.
pub build-with_resource :
    (b : RoleBuilder) (r : ParseableResourceType)
    → build (with_resource b r) ≡ some (permissions_on r b.actions)
unfolding build with_resource
build-with_resource b r = build_from-some r b.actions

build_from-none :
    (actions : List Action) → (build_from none actions ≡ none) ↔ (any names_resource actions ≡ true)
unfolding build_from permission_of
build_from-none [] = (λ h. cc, λ h. cc)
build_from-none (a ∷ more) =
    (λ h. ground (arith, (build_from-none more).0), λ h. ground (arith, (build_from-none more).1))

by_resource :
    (o : Option ParseableResourceType) (actions : List Action)
    → (build_from o actions ≡ none) ↔ ((o ≡ none) × (any names_resource actions ≡ true))
by_resource none actions =
    (λ h. (refl, (build_from-none actions).0 h), λ h. (build_from-none actions).1 h.1)
by_resource (some r) actions = (λ h. cc (build_from-some r actions), λ h. cc)

-- `build` panics exactly if there is no resource and an action wants one.
pub build-eq-none_iff :
    (b : RoleBuilder)
    → (build b ≡ none) ↔ ((b.resource_type ≡ none) × (any names_resource b.actions ≡ true))
unfolding build
build-eq-none_iff b = by_resource b.resource_type b.actions

abbrev pub resource_of : DefaultPrivilege → Option ParseableResourceType
resource_of (writer r) = some r
resource_of (ingestor r) = some r
resource_of (reader r) = some r
resource_of _ = none

-- A privilege on a resource gives permissions on that resource alone.
pub privilege_permissions-Shape :
    (d : DefaultPrivilege) (r : ParseableResourceType) (p : Permission)
    → resource_of d ≡ some r
    → In p (privilege_permissions d)
    → Shape r p
unfolding privilege_permissions
privilege_permissions-Shape (writer s) r p e m =
    subst (λ t. Shape t p) (some-injective s r e)
      (permissions_on-Shape s writer_perm_builder.actions p m)
privilege_permissions-Shape (ingestor s) r p e m =
    subst (λ t. Shape t p) (some-injective s r e)
      (permissions_on-Shape s ingest_perm_builder.actions p m)
privilege_permissions-Shape (reader s) r p e m =
    subst (λ t. Shape t p) (some-injective s r e)
      (permissions_on-Shape s reader_perm_builder.actions p m)
privilege_permissions-Shape admin r p e m = cc
privilege_permissions-Shape editor r p e m = cc

pub all-names_resource : (b : Action) → names_resource b ≡ false → b ≡ Action.all → ⊥
unfolding names_resource
all-names_resource b h e = false≢true (sym h ∙ ap names_resource e)

pub roles_name_none : (b : Action) → b ≡ get_user_roles → names_resource b ≡ true → ⊥
unfolding names_resource
roles_name_none b e h = false≢true (sym (ap names_resource e) ∙ h)
