-- ===== src/ClusterConfig.antt =====
-- internal/provider/resource_kafka_cluster_config.go: the settings of a Kafka cluster. Handlers is the resource
-- and its handlers, Replaced is on an update. Where a handler takes its cluster and its credentials from is in
-- Kafka.Settings. The REST API is a parameter.
pub mod Handlers
pub mod Replaced
mod Tests
