-- ===== src/Statement.antt =====
-- internal/provider/resource_flink_statement.go: Flink statements. Settings has the endpoint, the ids and
-- the credentials of a handler, Gateway the REST API and the resource's data, Properties the
-- properties and the identifier, Reads how a resource is set from a statement, Handlers the
-- handlers, and `resourceFlinkStatementDiff` is in Plan. The waits are those of Wait. The REST API is
-- a parameter.
pub mod Settings
pub mod Gateway
pub mod Properties
pub mod Reads
pub mod Handlers
pub mod Plan
pub mod Throughout
pub mod Secrets
pub mod Guards
pub mod Sent
mod Tests
