-- ===== src/Schema/Request.antt =====
-- internal/provider/resource_schema.go: the request that registers a schema, and the blocks of
-- a resource that it is built from. A field that a request may leave out is an option. The SDK's map
-- of a nested block has a value for each attribute.
use terraform_provider_confl.Base.{
  ℤ, pos, to_int32, Bool, true, false, ◌&&◌, Option, none, some, List, [], ◌∷◌, map, ltb, length,
  if◌then◌else◌,
}
use terraform_provider_confl.Kafka.{Text}
use terraform_provider_confl.Kafka.Acl.{text_eq}

abbrev pub TextMap : Type 0
TextMap = List (Text × Text)

-- A rule in a block, and `schemaregistryv1.Rule`.
pub record TfRule : Type 0 where
  pub name : Text
  pub doc : Text
  pub kind : Text
  pub mode : Text
  pub rule_type : Text
  pub expr : Text
  pub on_success : Text
  pub on_failure : Text
  pub disabled : Bool
  pub tags : List Text
  pub params : TextMap

pub record Rule : Type 0 where
  pub name : Option Text
  pub doc : Option Text
  pub kind : Option Text
  pub mode : Option Text
  pub rule_type : Option Text
  pub expr : Option Text
  pub on_success : Option Text
  pub on_failure : Option Text
  pub disabled : Option Bool
  pub tags : Option (List Text)
  pub params : Option TextMap

-- `GetName()` and the like: the zero value for nil.
abbrev pub get_or {ℓ} : {A : Type ℓ} → A → Option A → A
get_or zero_value none = zero_value
get_or zero_value (some a) = a

abbrev build_rule : TfRule → Rule
build_rule r = record {
  name = some r.name;
  doc = some r.doc;
  kind = some r.kind;
  mode = some r.mode;
  rule_type = some r.rule_type;
  expr = some r.expr;
  on_success = some r.on_success;
  on_failure = some r.on_failure;
  disabled = some r.disabled;
  tags = some r.tags;
  params = some r.params;
}

unfoldable pub build_rules : List TfRule → List Rule
build_rules tf_rules = map build_rule tf_rules

abbrev build_tf_rule : Rule → TfRule
build_tf_rule r = record {
  name = get_or [] r.name;
  doc = get_or [] r.doc;
  kind = get_or [] r.kind;
  mode = get_or [] r.mode;
  rule_type = get_or [] r.rule_type;
  expr = get_or [] r.expr;
  on_success = get_or [] r.on_success;
  on_failure = get_or [] r.on_failure;
  disabled = get_or false r.disabled;
  tags = get_or [] r.tags;
  params = get_or [] r.params;
}

-- A ruleset block: each of its three blocks may be nil.
pub record TfRuleset : Type 0 where
  pub domain_rules : Option (List TfRule)
  pub migration_rules : Option (List TfRule)
  pub encoding_rules : Option (List TfRule)

pub record RuleSet : Type 0 where
  pub domain_rules : Option (List Rule)
  pub migration_rules : Option (List Rule)
  pub encoding_rules : Option (List Rule)

abbrev tf_rules_of : List Rule → Option (List TfRule)
tf_rules_of rules = if ltb 0 (length rules) then some (map build_tf_rule rules) else none

unfoldable pub build_tf_rules : List Rule → List Rule → List Rule → TfRuleset
build_tf_rules domain_rules migration_rules encoding_rules = record {
  domain_rules = tf_rules_of domain_rules;
  migration_rules = tf_rules_of migration_rules;
  encoding_rules = tf_rules_of encoding_rules;
}

pub record TfReference : Type 0 where
  pub subject_name : Text
  pub name : Text
  pub version : ℤ

pub record SchemaReference : Type 0 where
  pub subject : Option Text
  pub name : Option Text
  pub version : Option ℤ

unfoldable build_schema_reference : TfReference → SchemaReference
unfolding to_int32
build_schema_reference r = record {
  subject = some r.subject_name;
  name = some r.name;
  version = some (to_int32 r.version);
}

unfoldable pub build_schema_references : List TfReference → List SchemaReference
unfolding build_schema_reference
build_schema_references tf_references = map build_schema_reference tf_references

unfoldable pub build_tf_schema_reference : SchemaReference → TfReference
build_tf_schema_reference r = record {
  subject_name = get_or [] r.subject;
  name = get_or [] r.name;
  version = get_or (pos 0) r.version;
}

unfoldable pub build_tf_schema_references : List SchemaReference → List TfReference
unfolding build_tf_schema_reference
build_tf_schema_references schema_references = map build_tf_schema_reference schema_references

-- A metadata block: each of its attributes may be nil.
pub record TfMetadata : Type 0 where
  pub tags : Option (List (Text × List Text))
  pub properties : Option TextMap
  pub sensitive : Option (List Text)

pub record Metadata : Type 0 where
  pub tags : Option (List (Text × List Text))
  pub properties : Option TextMap
  pub sensitive : Option (List Text)

-- A map as a list of its entries: an entry takes the place of the one under its key.
abbrev put : Text → List Text → List (Text × List Text) → List (Text × List Text)
put key value [] = (key, value) ∷ []
put key value ((k, v) ∷ entries) =
    if text_eq k key then (key, value) ∷ entries else (k, v) ∷ put key value entries

abbrev put_all : List (Text × List Text) → List (Text × List Text) → List (Text × List Text)
put_all entries [] = entries
put_all entries ((key, value) ∷ items) = put_all (put key value entries) items

unfoldable pub convert_to_string_string_list_map : List (Text × List Text) → List (Text × List Text)
convert_to_string_string_list_map items = put_all [] items

abbrev map_some {ℓ κ} : {A : Type ℓ} → {B : Type κ} → (A → B) → Option A → Option B
map_some f none = none
map_some f (some a) = some (f a)

pub record RegisterSchemaRequest : Type 0 where
  pub schema_type : Text
  pub schema : Text
  pub references : List SchemaReference
  pub rule_set : Option RuleSet
  pub metadata : Option Metadata

abbrev pub build_ruleset : TfRuleset → RuleSet
build_ruleset r = record {
  domain_rules = map_some build_rules r.domain_rules;
  migration_rules = map_some build_rules r.migration_rules;
  encoding_rules = map_some build_rules r.encoding_rules;
}

-- The ruleset that deletes the one that is registered.
abbrev pub deleted_ruleset : RuleSet
deleted_ruleset = record {
  domain_rules = some [];
  migration_rules = some [];
  encoding_rules = some [];
}

abbrev only_ruleset : List (Option TfRuleset) → Option RuleSet
only_ruleset (some r ∷ []) = some (build_ruleset r)
only_ruleset _ = none

abbrev is_empty {ℓ} : {A : Type ℓ} → List A → Bool
is_empty items = if ltb 0 (length items) then false else true

-- The ruleset of a request to create: `old` and `new` are the blocks of `d.GetChange(paramRuleset)`.
unfoldable pub created_ruleset : (old new : List (Option TfRuleset)) → Option RuleSet
unfolding build_rules
created_ruleset old new =
    if is_empty new && ltb 0 (length old) then some deleted_ruleset else only_ruleset new

abbrev build_metadata : TfMetadata → Metadata
build_metadata m = record {
  tags = map_some convert_to_string_string_list_map m.tags;
  properties = m.properties;
  sensitive = m.sensitive;
}

unfoldable pub requested_metadata : List (Option TfMetadata) → Option Metadata
unfolding convert_to_string_string_list_map
requested_metadata (some m ∷ []) = some (build_metadata m)
requested_metadata _ = none

abbrev one_ruleset : (old new : List (Option TfRuleset)) → Option RuleSet
one_ruleset old new =
    if is_empty new && ltb 0 (length old) then some deleted_ruleset else only_ruleset new

-- The ruleset of a request in a plan: it is looked at only if there is one block.
unfoldable pub planned_ruleset : (old new : List (Option TfRuleset)) → Option RuleSet
unfolding build_rules
planned_ruleset old [] = none
planned_ruleset old (r ∷ []) = one_ruleset old (r ∷ [])
planned_ruleset old (r ∷ s ∷ new) = none
