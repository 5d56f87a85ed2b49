-- ===== src/Policies/Permissions.antt =====
-- crates/oidc-core/src/models/authorization_service.rs: what a policy says of a request, and how a
-- permission decides on the answers of its policies. The reading of a `serde_json::Value`, of a date
-- and of the day of the week are operations that the model is given.
pub mod Strategies
use Prim.Native.Char.{code}
use Prim.Native.String
use open_id_connect_wasi_hub.Prelude.{
  ℕ, ◌+◌, ◌*◌, String, List, [], ◌∷◌, Option, none, some, Bool, true, false, not, ◌&&◌, ◌||◌, ◌==◌,
  nat_eq, string_eq, option_eq, length, any, all, filter, is_empty, is_null, contains, leb, ltb,
  if◌then◌else◌, codes, is_blank, nat_beq,
}
use open_id_connect_wasi_hub.External.{External}
use open_id_connect_wasi_hub.Models.{
  Json, AuthorizationPolicy, AuthorizationPermission, AuthorizationContext,
}

-- Methods of `serde_json::Value`, and the calendar of chrono.
pub record JsonHost : Type 0 where
  pub get : Json → String → Option Json
  pub as_str : Json → Option String
  pub as_array : Json → Option (List Json)
  pub as_u64 : Json → Option ℕ
  pub is_null_value : Json → Bool
  pub values_equal : Json → Json → Bool
  pub null : Json
  pub external : External
  pub parse_from_rfc3339 : String → Option ℕ
  pub num_days_from_monday : ℕ → ℕ

abbrev pub unwrap_or : String → Option String → String
unwrap_or otherwise none = otherwise
unwrap_or otherwise (some text) = text

abbrev push_front : List String → String → List String
push_front [] first = first ∷ []
push_front (part ∷ parts) first = String.◌++◌ first part ∷ parts

-- `str::split`
unfoldable pub split : (ℕ → Bool) → String → List String
split separates String.[] = "" ∷ []
split separates (String.◌∷◌ c s) =
    let rest = split separates s in
    if separates (code c) then "" ∷ rest else push_front rest (String.◌∷◌ c String.[])

abbrev starts_with : List ℕ → List ℕ → Bool
starts_with cs [] = true
starts_with [] (i ∷ is) = false
starts_with (c ∷ cs) (i ∷ is) = nat_beq c i && starts_with cs is

-- `str::contains`
unfoldable pub contains_text : List ℕ → List ℕ → Bool
contains_text [] item = is_empty item
contains_text (c ∷ cs) item = starts_with (c ∷ cs) item || contains_text cs item

module _ (host : JsonHost) where
  and_then_str : Option Json → Option String
  and_then_str none = none
  and_then_str (some v) = host.as_str v

  and_then_array : Option Json → Option (List Json)
  and_then_array none = none
  and_then_array (some v) = host.as_array v

  texts : List Json → List String
  texts [] = []
  texts (v ∷ vs) = elim (host.as_str v) [ some text ↦ text ∷ texts vs | none ↦ texts vs ]

  unfoldable pub value_list : Json → String → List String
  unfolding and_then_array texts
  value_list config key = elim (and_then_array (host.get config key)) [
    | some vs ↦ texts vs
    | none ↦ []
  ]

  unfoldable pub contains_uuid : Json → String → Option ℕ → Bool
  contains_uuid config key none = false
  contains_uuid config key (some actual) =
      any (λ expected. expected == host.external.uuid_text actual) (value_list config key)

  unfoldable pub matches_values : Json → String → List String → Bool
  unfolding and_then_str
  matches_values config key actual =
      let expected = value_list config key in
      if and_then_str (host.get config "match") == some "all"
      then not (is_empty expected) && all (λ value. contains actual value) expected
      else any (λ value. contains actual value) expected

  -- `key.split('.').try_fold(source, …)`
  unfoldable pub resolve : List String → Json → Option Json
  resolve [] v = some v
  resolve (part ∷ parts) v = elim (host.get v part) [ none ↦ none | some w ↦ resolve parts w ]

  unfoldable pub equals : Option Json → Json → Bool
  equals none expected = false
  equals (some v) expected = host.values_equal v expected

  unfoldable pub is_present : Option Json → Bool
  is_present none = false
  is_present (some v) = not (host.is_null_value v)

  contains_item : Option String → Option String → Bool
  contains_item (some text) (some item) = contains_text (codes text) (codes item)
  contains_item (some text) none = false
  contains_item none item = false

  unfoldable pub contains_value : Option Json → Json → Bool
  unfolding contains_item
  contains_value none expected = false
  contains_value (some v) expected = elim (host.as_array v) [
    | some values ↦ any (λ value. host.values_equal value expected) values
    | none ↦ contains_item (host.as_str v) (host.as_str expected)
  ]

  unfoldable pub source_of : Json → AuthorizationContext → Json
  unfolding and_then_str
  source_of config context =
      let source = and_then_str (host.get config "source") in
      if source == some "token"
      then context.token_claims
      else if source == some "resource"
      then context.resource_attributes
      else context.user_attributes

  value_or_null : Option Json → Json
  value_or_null none = host.null
  value_or_null (some v) = v

  unfoldable pub evaluate_attribute : Json → AuthorizationContext → Bool
  unfolding and_then_str value_or_null
  evaluate_attribute config context =
      let key = unwrap_or "" (and_then_str (host.get config "key")) in
      let actual = resolve (split (λ c. nat_beq c 46) key) (source_of config context) in
      let operator = unwrap_or "equals" (and_then_str (host.get config "operator")) in
      let expected = value_or_null (host.get config "value") in
      if key == ""
      then false
      else if operator == "present"
      then is_present actual
      else if operator == "not_equals"
      then not (equals actual expected)
      else if operator == "contains"
      then contains_value actual expected
      else equals actual expected

  -- `….and_then(parse).is_none_or(p)`
  none_or : (ℕ → Bool) → Option String → Bool
  none_or p none = true
  none_or p (some text) = elim (host.parse_from_rfc3339 text) [ none ↦ true | some time ↦ p time ]

  is_day : ℕ → Json → Bool
  is_day now value = host.as_u64 value == some (host.num_days_from_monday now + 1)

  weekday_allowed : ℕ → Option (List Json) → Bool
  unfolding is_day
  weekday_allowed now none = true
  weekday_allowed now (some days) = any (is_day now) days

  unfoldable pub evaluate_time : Json → ℕ → Bool
  unfolding and_then_str and_then_array none_or weekday_allowed
  evaluate_time config now =
      none_or (λ time. leb time now) (and_then_str (host.get config "not_before"))
      && none_or (λ time. ltb now time) (and_then_str (host.get config "not_on_or_after"))
      && weekday_allowed now (and_then_array (host.get config "weekdays"))

  -- The `match` of `evaluate`.
  unfoldable pub matched : AuthorizationPolicy → AuthorizationContext → Bool
  matched policy context =
      if policy.policy_type == "user"
      then contains_uuid policy.config "users" context.subject_id
      else if policy.policy_type == "role"
      then matches_values policy.config "roles" context.roles
      else if policy.policy_type == "group"
      then matches_values policy.config "groups" context.groups
      else if policy.policy_type == "client"
      then any (λ value. value == context.client_id) (value_list policy.config "clients")
      else if policy.policy_type == "owner"
      then not (is_null context.subject_id) && context.subject_id == context.owner_id
      else if policy.policy_type == "attribute"
      then evaluate_attribute policy.config context
      else if policy.policy_type == "time"
      then evaluate_time policy.config context.now
      else false

  unfoldable pub evaluate : AuthorizationPolicy → AuthorizationContext → Bool
  evaluate policy context =
      if policy.logic == "negative" then not (matched policy context) else matched policy context

unfoldable pub applies_to : AuthorizationPermission → ℕ → List String → Bool
applies_to permission resource_id requested_scopes =
    (is_empty permission.resources || contains permission.resources resource_id)
    && (is_empty permission.scopes
        || all (λ scope. contains permission.scopes scope) requested_scopes)

-- By strategy, for answers that are there.
unfoldable pub decide : AuthorizationPermission → List Bool → Bool
decide permission results =
    if is_empty results
    then false
    else if permission.decision_strategy == "unanimous"
    then all (λ value. value) results
    else if permission.decision_strategy == "consensus"
    then ltb (length results) (length (filter (λ value. value) results) * 2)
    else any (λ value. value) results
