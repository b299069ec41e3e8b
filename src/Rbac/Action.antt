-- ===== src/Rbac/Action.antt =====
-- rbac/role.rs, the actions: `Action` and the equality that it derives.
use parseable.Prelude.{
  some-injective, ℕ, ◌≡◌, refl, sym, ◌∙◌, ap, ◌↔◌, Bool, true, some, List, [], ◌∷◌, eqb, eqb_iff,
  get_elem?, Eq,
}

pub data Action : Type 0 where
  create_user_group get_user_group modify_user_group delete_user_group ingest query : Action
  create_stream list_stream get_stream_info detect_schema get_schema get_stats : Action
  delete_stream get_retention put_retention put_hot_tier_enabled get_hot_tier_enabled : Action
  delete_hot_tier_enabled put_alert get_alert delete_alert put_user list_user : Action
  delete_user put_user_roles get_user_roles put_role get_role delete_role list_role : Action
  get_about add_llm delete_llm get_llm query_llm list_llm list_cluster : Action
  list_cluster_metrics delete_node all get_analytics list_dashboard get_dashboard : Action
  create_dashboard delete_dashboard list_filter get_filter create_filter : Action
  delete_filter login metrics get_correlation create_correlation delete_correlation : Action
  put_correlation : Action

-- The discriminant of a variant, its place in the declaration: derived equality compares these.
abbrev pub discriminant : Action → ℕ
discriminant create_user_group = 0
discriminant get_user_group = 1
discriminant modify_user_group = 2
discriminant delete_user_group = 3
discriminant ingest = 4
discriminant query = 5
discriminant create_stream = 6
discriminant list_stream = 7
discriminant get_stream_info = 8
discriminant detect_schema = 9
discriminant get_schema = 10
discriminant get_stats = 11
discriminant delete_stream = 12
discriminant get_retention = 13
discriminant put_retention = 14
discriminant put_hot_tier_enabled = 15
discriminant get_hot_tier_enabled = 16
discriminant delete_hot_tier_enabled = 17
discriminant put_alert = 18
discriminant get_alert = 19
discriminant delete_alert = 20
discriminant put_user = 21
discriminant list_user = 22
discriminant delete_user = 23
discriminant put_user_roles = 24
discriminant get_user_roles = 25
discriminant put_role = 26
discriminant get_role = 27
discriminant delete_role = 28
discriminant list_role = 29
discriminant get_about = 30
discriminant add_llm = 31
discriminant delete_llm = 32
discriminant get_llm = 33
discriminant query_llm = 34
discriminant list_llm = 35
discriminant list_cluster = 36
discriminant list_cluster_metrics = 37
discriminant delete_node = 38
discriminant all = 39
discriminant get_analytics = 40
discriminant list_dashboard = 41
discriminant get_dashboard = 42
discriminant create_dashboard = 43
discriminant delete_dashboard = 44
discriminant list_filter = 45
discriminant get_filter = 46
discriminant create_filter = 47
discriminant delete_filter = 48
discriminant login = 49
discriminant metrics = 50
discriminant get_correlation = 51
discriminant create_correlation = 52
discriminant delete_correlation = 53
discriminant put_correlation = 54

abbrev variants : List Action
variants =
    create_user_group ∷ get_user_group ∷ modify_user_group ∷ delete_user_group ∷ ingest ∷ query
    ∷ create_stream ∷ list_stream ∷ get_stream_info ∷ detect_schema ∷ get_schema ∷ get_stats
    ∷ delete_stream ∷ get_retention ∷ put_retention ∷ put_hot_tier_enabled ∷ get_hot_tier_enabled
    ∷ delete_hot_tier_enabled ∷ put_alert ∷ get_alert ∷ delete_alert ∷ put_user ∷ list_user
    ∷ delete_user ∷ put_user_roles ∷ get_user_roles ∷ put_role ∷ get_role ∷ delete_role ∷ list_role
    ∷ get_about ∷ add_llm ∷ delete_llm ∷ get_llm ∷ query_llm ∷ list_llm ∷ list_cluster
    ∷ list_cluster_metrics ∷ delete_node ∷ all ∷ get_analytics ∷ list_dashboard ∷ get_dashboard
    ∷ create_dashboard ∷ delete_dashboard ∷ list_filter ∷ get_filter ∷ create_filter ∷ delete_filter
    ∷ login ∷ metrics ∷ get_correlation ∷ create_correlation ∷ delete_correlation ∷ put_correlation
    ∷ []

variants-discriminant : (a : Action) → get_elem? variants (discriminant a) ≡ some a
variants-discriminant create_user_group = refl
variants-discriminant get_user_group = refl
variants-discriminant modify_user_group = refl
variants-discriminant delete_user_group = refl
variants-discriminant ingest = refl
variants-discriminant query = refl
variants-discriminant create_stream = refl
variants-discriminant list_stream = refl
variants-discriminant get_stream_info = refl
variants-discriminant detect_schema = refl
variants-discriminant get_schema = refl
variants-discriminant get_stats = refl
variants-discriminant delete_stream = refl
variants-discriminant get_retention = refl
variants-discriminant put_retention = refl
variants-discriminant put_hot_tier_enabled = refl
variants-discriminant get_hot_tier_enabled = refl
variants-discriminant delete_hot_tier_enabled = refl
variants-discriminant put_alert = refl
variants-discriminant get_alert = refl
variants-discriminant delete_alert = refl
variants-discriminant put_user = refl
variants-discriminant list_user = refl
variants-discriminant delete_user = refl
variants-discriminant put_user_roles = refl
variants-discriminant get_user_roles = refl
variants-discriminant put_role = refl
variants-discriminant get_role = refl
variants-discriminant delete_role = refl
variants-discriminant list_role = refl
variants-discriminant get_about = refl
variants-discriminant add_llm = refl
variants-discriminant delete_llm = refl
variants-discriminant get_llm = refl
variants-discriminant query_llm = refl
variants-discriminant list_llm = refl
variants-discriminant list_cluster = refl
variants-discriminant list_cluster_metrics = refl
variants-discriminant delete_node = refl
variants-discriminant all = refl
variants-discriminant get_analytics = refl
variants-discriminant list_dashboard = refl
variants-discriminant get_dashboard = refl
variants-discriminant create_dashboard = refl
variants-discriminant delete_dashboard = refl
variants-discriminant list_filter = refl
variants-discriminant get_filter = refl
variants-discriminant create_filter = refl
variants-discriminant delete_filter = refl
variants-discriminant login = refl
variants-discriminant metrics = refl
variants-discriminant get_correlation = refl
variants-discriminant create_correlation = refl
variants-discriminant delete_correlation = refl
variants-discriminant put_correlation = refl

discriminant-injective : (a b : Action) → discriminant a ≡ discriminant b → a ≡ b
discriminant-injective a b h =
    some-injective a b
      (sym (variants-discriminant a) ∙ ap (get_elem? variants) h ∙ variants-discriminant b)

unfoldable pub action_eqb : Action → Action → Bool
action_eqb a b = eqb (discriminant a) (discriminant b)

pub action_eqb_iff : (a b : Action) → (action_eqb a b ≡ true) ↔ (a ≡ b)
unfolding action_eqb
action_eqb_iff a b = (
  λ h. discriminant-injective a b ((eqb_iff (discriminant a) (discriminant b)).0 h),
  λ e. (eqb_iff (discriminant a) (discriminant b)).1 (ap discriminant e),
)

instance abbrev pub action_eq : Eq Action
action_eq = record { test = action_eqb; test_iff = action_eqb_iff }
