-- ===== src/Schema.antt =====
-- internal/provider/resource_schema.go: the schemas of a Schema Registry. Id is the identifier of
-- a resource, Request the request that registers a schema, Settings where the registry and its
-- credentials come from, Registry the REST API, Loads
-- how a schema is found and read, Handlers the handlers, Plan what is
-- checked while a plan is made. A text is a list of bytes; the REST API is a parameter.
pub mod Id
pub mod Request
pub mod Settings
pub mod Registry
pub mod Loads
pub mod Handlers
pub mod Plan
pub mod IdTrip
pub mod Found
pub mod Passed
pub mod Kept
pub mod Logged
pub mod Ordered
pub mod Checked
pub mod Imported
mod Tests
