-- ===== src/Rbac/State/Privileges.antt =====
-- rbac/role.rs and rbac/map.rs: which privileges can ever authorise an action.
use parseable.Prelude.{
  some-injective, string_eq, ◌≡◌, refl, ap, ◌∙◌, inl, inr, Bool, true, false, Option, none, some,
  List, [], ◌∷◌, arith, String, ◌⊎◌, sym, subst, In, here, there, all as every,
}
use mathlib.Core.Bool.{false≢true}
use parseable.Rbac.Action.{Action, action_eq}
use parseable.Rbac.Role.{
  Permission, unit, resource, self_user, ParseableResourceType, stream, llm, all, DefaultPrivilege,
  admin, editor, writer, ingestor, reader, names_resource, privilege_permissions,
}
use parseable.Rbac.Role.Build.{
  Shape, all-names_resource, roles_name_none, resource_of, privilege_permissions-Shape,
}
use parseable.Rbac.State.{State}
use parseable.Rbac.State.Decision.{Covers, Allows, Reaches}

-- Managing users, roles, user groups and the cluster, and reading the analytics.
abbrev pub is_administrative : Action → Bool
is_administrative Action.put_user = true
is_administrative Action.list_user = true
is_administrative Action.delete_user = true
is_administrative Action.put_user_roles = true
is_administrative Action.put_role = true
is_administrative Action.get_role = true
is_administrative Action.delete_role = true
is_administrative Action.list_role = true
is_administrative Action.create_user_group = true
is_administrative Action.get_user_group = true
is_administrative Action.modify_user_group = true
is_administrative Action.delete_user_group = true
is_administrative Action.list_cluster = true
is_administrative Action.list_cluster_metrics = true
is_administrative Action.delete_node = true
is_administrative Action.get_analytics = true
is_administrative Action.all = true
is_administrative _ = false

-- The action that a permission is for.
abbrev pub action_of : Permission → Option Action
action_of (unit a) = some a
action_of (resource a r) = some a
action_of self_user = none

abbrev harmless : Permission → Bool
harmless (unit a) = elim (is_administrative a) [ true ↦ false | false ↦ true ]
harmless (resource a r) = elim (is_administrative a) [ true ↦ false | false ↦ true ]
harmless self_user = true

every-In {ℓ} :
    {A : Type ℓ} (p : A → Bool) (xs : List A) (a : A) → every p xs ≡ true → In a xs → p a ≡ true
every-In p [] a h m = elim m [ ]
every-In p (x ∷ xs) a h (here e) = ap p e ∙ head_holds (p x) refl
  where
    head_holds : (b : Bool) → p x ≡ b → p x ≡ true
    head_holds true q = q
    head_holds false q = ground arith
every-In p (x ∷ xs) a h (there m) = every-In p xs a (ground arith) m

privilege-harmless :
    (d : DefaultPrivilege) → (d ≡ admin) ⊎ (every harmless (privilege_permissions d) ≡ true)
unfolding privilege_permissions
privilege-harmless admin = inl refl
privilege-harmless editor = inr refl
privilege-harmless (writer r) = inr refl
privilege-harmless (ingestor r) = inr refl
privilege-harmless (reader r) = inr refl

harmless-Covers :
    (a b : Action) → is_administrative a ≡ true → is_administrative b ≡ false → Covers a b → ⊥
harmless-Covers a b ha hb (inl e) = false≢true (sym hb ∙ ap is_administrative e ∙ ha)
harmless-Covers a b ha hb (inr e) = false≢true (sym hb ∙ ap is_administrative e)

not_administrative : (b : Bool) → (elim b [ true ↦ false | false ↦ true ]) ≡ true → b ≡ false
not_administrative true h = cc
not_administrative false h = refl

abbrev pub id_of : ParseableResourceType → Option String
id_of (stream id) = some id
id_of (llm id) = some id
id_of all = none

module _ (st : State) (required : Action) (context context_user : Option String)
    (username : String) where
  harmless-Allows :
      (p : Permission)
      → is_administrative required ≡ true
      → harmless p ≡ true
      → Allows st required context context_user username p
      → ⊥
  harmless-Allows (unit b) ha hp c = harmless-Covers required b ha (not_administrative _ hp) c
  harmless-Allows (resource b (stream id)) ha hp (c, _) =
      harmless-Covers required b ha (not_administrative _ hp) c
  harmless-Allows (resource b (llm id)) ha hp (c, _) =
      harmless-Covers required b ha (not_administrative _ hp) c
  harmless-Allows (resource b all) ha hp c =
      harmless-Covers required b ha (not_administrative _ hp) c
  harmless-Allows self_user ha hp (e, _) = false≢true (sym (ap is_administrative e) ∙ ha)

  -- Only the admin privilege has a permission that allows an administrative action.
  pub administrative_needs_admin :
      (d : DefaultPrivilege) (p : Permission)
      → In p (privilege_permissions d)
      → is_administrative required ≡ true
      → Allows st required context context_user username p
      → d ≡ admin
  administrative_needs_admin d p m ha h = elim (privilege-harmless d) [
    | inl e ↦ e
    | inr every_harmless ↦ absurd (harmless-Allows p ha (every-In harmless _ p every_harmless m) h)
  ]

  scoped-Allows :
      (r : ParseableResourceType) (id : String) (p : Permission)
      → id_of r ≡ some id
      → Shape r p
      → names_resource required ≡ true
      → Allows st required context context_user username p
      → Reaches st context id
  scoped-Allows r id (unit b) ei s h (inl e) = absurd (false≢true (sym s ∙ ap names_resource e ∙ h))
  scoped-Allows r id (unit b) ei s h (inr e) = absurd (all-names_resource b s e)
  scoped-Allows r id (resource b (stream j)) ei (_, e) h (c, reaches) =
      subst (Reaches st context) (some-injective _ _ (ap id_of e ∙ ei)) reaches
  scoped-Allows r id (resource b (llm j)) ei (_, e) h (c, reaches) =
      subst (Reaches st context) (some-injective _ _ (ap id_of e ∙ ei)) reaches
  scoped-Allows r id (resource b all) ei (_, e) h c = cc (ap id_of e)
  scoped-Allows r id self_user ei s h (e, _) = absurd (roles_name_none required e h)

  -- A privilege on one resource allows an action on a resource only where the request reaches
  -- that resource.
  pub scoped_needs_reach :
      (d : DefaultPrivilege) (r : ParseableResourceType) (id : String) (p : Permission)
      → resource_of d ≡ some r
      → id_of r ≡ some id
      → In p (privilege_permissions d)
      → names_resource required ≡ true
      → Allows st required context context_user username p
      → Reaches st context id
  scoped_needs_reach d r id p ed ei m h a =
      scoped-Allows r id p ei (privilege_permissions-Shape d r p ed m) h a
