-- ===== src/Topic.antt =====
-- internal/provider/resource_kafka_topic.go: Kafka topics. Configs is a topic's settings and the request
-- that changes them, Cluster the REST API and the resource's data, Handlers the handlers. Where
-- a handler takes its cluster and its credentials from is in Kafka.Settings, the wait for a deletion in
-- Wait. Applied and Settled are on the request that changes settings, Succeeded and Updated on an
-- update. The REST API is a parameter.
pub mod Configs
pub mod Cluster
pub mod Handlers
pub mod Applied
pub mod Succeeded
pub mod Updated
pub mod Settled
mod Tests
