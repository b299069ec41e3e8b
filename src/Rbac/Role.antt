-- ===== src/Rbac/Role.antt =====
-- rbac/role.rs, the permissions: resources, `RoleBuilder` and the default privileges.
pub mod Build
use parseable.Prelude.{
  ◌>>=◌, ◌≡◌, refl, Bool, true, false, Option, none, some, List, [], ◌∷◌, String, if◌then◌else◌,
}
use parseable.Rbac.Action
use parseable.Rbac.Action.{
  Action, ingest, query, create_stream, list_stream, get_stream_info, detect_schema, get_schema,
  get_stats, delete_stream, get_retention, put_retention, put_hot_tier_enabled,
  get_hot_tier_enabled, delete_hot_tier_enabled, put_alert, get_alert, delete_alert, get_user_roles,
  get_about, add_llm, delete_llm, get_llm, query_llm, list_llm, list_dashboard, get_dashboard,
  create_dashboard, delete_dashboard, list_filter, get_filter, create_filter, delete_filter, login,
  metrics, get_correlation, create_correlation, delete_correlation, put_correlation, action_eq,
}

pub data ParseableResourceType : Type 0 where
  stream llm : String → ParseableResourceType
  all : ParseableResourceType

pub data Permission : Type 0 where
  unit : Action → Permission
  resource : Action → ParseableResourceType → Permission
  self_user : Permission

pub record RoleBuilder : Type 0 where
  pub actions : List Action
  pub resource_type : Option ParseableResourceType

unfoldable pub with_resource : RoleBuilder → ParseableResourceType → RoleBuilder
with_resource b r = record b { resource_type = some r }

-- The two groups of the match in `RoleBuilder::build`: true for the actions whose permission names
-- a resource.
unfoldable pub names_resource : Action → Bool
names_resource query = true
names_resource query_llm = true
names_resource add_llm = true
names_resource delete_llm = true
names_resource get_llm = true
names_resource list_llm = true
names_resource ingest = true
names_resource list_stream = true
names_resource get_schema = true
names_resource detect_schema = true
names_resource get_stats = true
names_resource get_retention = true
names_resource put_retention = true
names_resource Action.all = true
names_resource _ = false

-- One round of the loop of `build`; `none` is the panic of `unwrap` on a builder with no resource.
unfoldable pub permission_of : Option ParseableResourceType → Action → Option Permission
permission_of none a = if names_resource a then none else some (unit a)
permission_of (some r) a = some (if names_resource a then resource a r else unit a)

-- The loop of `build`, and the permission that it adds behind the others.
build_from : Option ParseableResourceType → List Action → Option (List Permission)
unfolding permission_of
build_from r [] = some (self_user ∷ [])
build_from r (a ∷ more) = do
  perm ← permission_of r a
  perms ← build_from r more
  some (perm ∷ perms)

unfoldable pub build : RoleBuilder → Option (List Permission)
unfolding build_from
build b = build_from b.resource_type b.actions

pub data DefaultPrivilege : Type 0 where
  admin editor : DefaultPrivilege
  writer ingestor reader : ParseableResourceType → DefaultPrivilege

abbrev pub admin_perm_builder : RoleBuilder
admin_perm_builder = record { actions = Action.all ∷ []; resource_type = some all }

abbrev pub editor_perm_builder : RoleBuilder
editor_perm_builder = record {
  actions =
      login ∷ metrics ∷ get_about ∷ ingest ∷ query ∷ create_stream ∷ delete_stream ∷ list_stream
      ∷ get_stream_info ∷ create_correlation ∷ delete_correlation ∷ get_correlation
      ∷ put_correlation ∷ detect_schema ∷ get_schema ∷ get_stats ∷ get_retention ∷ put_retention
      ∷ put_hot_tier_enabled ∷ get_hot_tier_enabled ∷ delete_hot_tier_enabled ∷ put_alert
      ∷ get_alert ∷ delete_alert ∷ add_llm ∷ delete_llm ∷ get_llm ∷ query_llm ∷ list_llm
      ∷ create_filter ∷ list_filter ∷ get_filter ∷ delete_filter ∷ list_dashboard ∷ get_dashboard
      ∷ create_dashboard ∷ delete_dashboard ∷ get_user_roles ∷ [];
  resource_type = some all;
}

abbrev pub writer_perm_builder : RoleBuilder
writer_perm_builder = record {
  actions =
      login ∷ get_about ∷ query ∷ list_stream ∷ get_schema ∷ get_stats ∷ put_retention ∷ put_alert
      ∷ get_alert ∷ delete_alert ∷ get_retention ∷ put_hot_tier_enabled ∷ get_hot_tier_enabled
      ∷ delete_hot_tier_enabled ∷ create_correlation ∷ delete_correlation ∷ get_correlation
      ∷ put_correlation ∷ list_dashboard ∷ get_dashboard ∷ create_dashboard ∷ delete_dashboard
      ∷ ingest ∷ get_llm ∷ query_llm ∷ list_llm ∷ get_stream_info ∷ get_filter ∷ list_filter
      ∷ create_filter ∷ delete_filter ∷ get_user_roles ∷ [];
  resource_type = none;
}

abbrev pub reader_perm_builder : RoleBuilder
reader_perm_builder = record {
  actions =
      login ∷ get_about ∷ query ∷ list_stream ∷ get_schema ∷ get_stats ∷ get_llm ∷ query_llm
      ∷ list_llm ∷ list_filter ∷ get_filter ∷ create_filter ∷ delete_filter ∷ create_correlation
      ∷ delete_correlation ∷ get_correlation ∷ put_correlation ∷ list_dashboard ∷ get_dashboard
      ∷ create_dashboard ∷ delete_dashboard ∷ get_retention ∷ get_stream_info ∷ get_user_roles
      ∷ get_alert ∷ [];
  resource_type = none;
}

abbrev pub ingest_perm_builder : RoleBuilder
ingest_perm_builder = record { actions = ingest ∷ []; resource_type = none }

-- `RoleBuilder::from`
unfoldable pub from_privilege : DefaultPrivilege → RoleBuilder
unfolding with_resource
from_privilege admin = admin_perm_builder
from_privilege editor = editor_perm_builder
from_privilege (writer r) = with_resource writer_perm_builder r
from_privilege (reader r) = with_resource reader_perm_builder r
from_privilege (ingestor r) = with_resource ingest_perm_builder r

-- `RoleBuilder::from(privilege).build()`. The `[]` stands for a panic, which `build-from_privilege`
-- excludes.
unfoldable pub privilege_permissions : DefaultPrivilege → List Permission
unfolding build from_privilege names_resource
privilege_permissions p = elim (build (from_privilege p)) [ none ↦ [] | some perms ↦ perms ]

-- No default privilege makes `build` panic.
pub build-from_privilege :
    (p : DefaultPrivilege) → build (from_privilege p) ≡ some (privilege_permissions p)
unfolding privilege_permissions
build-from_privilege admin = refl
build-from_privilege editor = refl
build-from_privilege (writer r) = refl
build-from_privilege (reader r) = refl
build-from_privilege (ingestor r) = refl
