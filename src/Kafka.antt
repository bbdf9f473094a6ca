-- ===== src/Kafka.antt =====
-- Kafka resources: internal/provider/resource_kafka_acl.go, and the functions of
-- internal/provider/resource_kafka_topic.go that say which cluster a handler talks to, and how.
-- A text is a list of bytes. The REST API is a parameter.
pub mod Separated
pub mod Settings
pub mod Acl
pub mod AclHandlers
pub mod Clients
pub mod AclId
pub mod AclState
pub mod AclDrift
pub mod AclRefresh
mod Tests
use terraform_provider_confl.Base.{ℕ, Bool, List}

abbrev pub Text : Type 0
Text = List ℕ
