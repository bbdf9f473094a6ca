-- ===== src/Topic/Configs.antt =====
-- internal/provider/resource_kafka_topic.go: the settings of a topic, as the list of a map's entries, and
-- the request that changes them. A loop over a map is one over that list.
use terraform_provider_confl.Base.{
  Bool, false, not, ◌||◌, Option, none, some, List, [], ◌∷◌, ◌++◌, String, str_eq, one_of,
  if◌then◌else◌,
}

abbrev pub TopicConfigs : Type 0
TopicConfigs = List (String × String)

-- `value, ok := configs[name]`
unfoldable pub config_of : String → TopicConfigs → Option String
config_of name [] = none
config_of name ((n, v) ∷ configs) =
    let rest = config_of name configs in if str_eq n name then some v else rest

abbrev pub editable_topic_settings : List String
editable_topic_settings =
    "cleanup.policy" ∷ "delete.retention.ms" ∷ "max.message.bytes" ∷ "max.compaction.lag.ms"
    ∷ "message.timestamp.difference.max.ms" ∷ "message.timestamp.before.max.ms"
    ∷ "message.timestamp.after.max.ms" ∷ "message.timestamp.type" ∷ "min.compaction.lag.ms"
    ∷ "min.insync.replicas" ∷ "retention.bytes" ∷ "retention.ms" ∷ "segment.bytes" ∷ "segment.ms"
    ∷ "confluent.key.schema.validation" ∷ "confluent.value.schema.validation"
    ∷ "confluent.key.subject.name.strategy" ∷ "confluent.value.subject.name.strategy"
    ∷ "confluent.schema.validation.context.name" ∷ []

abbrev pub ignored_topic_settings : List String
ignored_topic_settings = "confluent.topic.type" ∷ []

-- `AlterConfigBatchRequestDataData`: the DELETE operation, or a value.
pub data ConfigEdit : Type 0 where
  reset : (name : String) → ConfigEdit
  put : (name value : String) → ConfigEdit

-- A batch, or the setting that cannot be changed.
pub data ConfigBatch : Type 0 where
  batch : List ConfigEdit → ConfigBatch
  read_only : (name : String) → ConfigBatch

-- An edit in front of a batch, if its setting is editable.
abbrev pub edit_first : (name : String) → ConfigEdit → ConfigBatch → ConfigBatch
edit_first name edit (batch edits) =
    if one_of name editable_topic_settings then batch (edit ∷ edits) else read_only name
edit_first name edit (read_only other) =
    if one_of name editable_topic_settings then read_only other else read_only name

-- Operation #3: the settings that are removed.
unfoldable pub removed_configs : TopicConfigs → TopicConfigs → ConfigBatch
unfolding config_of
removed_configs new_configs [] = batch []
removed_configs new_configs ((name, value) ∷ old_configs) =
    let rest = removed_configs new_configs old_configs in
    elim (config_of name new_configs) [ some v ↦ rest | none ↦ edit_first name (reset name) rest ]

-- `ok && oldTopicSettingValue == newTopicSettingValue`
abbrev pub is_value : Option String → String → Bool
is_value none value = false
is_value (some v) value = str_eq v value

-- Operations #1 and #2: the settings that are added or updated.
unfoldable pub updated_configs : TopicConfigs → TopicConfigs → ConfigBatch
unfolding config_of
updated_configs old_configs [] = batch []
updated_configs old_configs ((name, value) ∷ new_configs) =
    let rest = updated_configs old_configs new_configs in
    if not (is_value (config_of name old_configs) value)
    then edit_first name (put name value) rest
    else rest

abbrev pub both_batches : ConfigBatch → ConfigBatch → ConfigBatch
both_batches (read_only name) b = read_only name
both_batches (batch edits) (read_only name) = read_only name
both_batches (batch edits) (batch others) = batch (edits ++ others)

unfoldable pub config_update_batch : (old_configs new_configs : TopicConfigs) → ConfigBatch
unfolding removed_configs updated_configs
config_update_batch old_configs new_configs =
    both_batches (removed_configs new_configs old_configs) (updated_configs old_configs new_configs)

-- The settings whose value after an update is not the one that was sent.
unfoldable pub outdated_configs : (actual_configs : TopicConfigs) → List ConfigEdit → List String
unfolding config_of
outdated_configs actual_configs [] = []
outdated_configs actual_configs (reset name ∷ edits) = outdated_configs actual_configs edits
outdated_configs actual_configs (put name value ∷ edits) =
    let rest = outdated_configs actual_configs edits in
    elim (config_of name actual_configs) [
      | none ↦ rest
      | some v ↦ if not (str_eq v value) then name ∷ rest else rest
    ]

-- A setting that the API lists once, with its source; its value may be unset, and is not nil if it is set.
pub record RemoteConfig : Type 0 where
  pub name : String
  pub source : String
  pub value : Option String

-- `loadTopicConfigs`: the settings that were set, but for internal ones.
unfoldable pub set_configs : List RemoteConfig → TopicConfigs
set_configs [] = []
set_configs (r ∷ configs) =
    let rest = set_configs configs in
    if one_of r.name ignored_topic_settings || not (str_eq r.source "DYNAMIC_TOPIC_CONFIG")
    then rest
    else elim r.value [ none ↦ rest | some value ↦ (r.name, value) ∷ rest ]
