-- ===== src/Lib.antt =====
-- The Terraform provider for Confluent: the logic under internal/provider, as definitions that
-- compute and theorems about them.
--
-- The provider is a plugin of Terraform. For each kind of resource it has handlers that create, read,
-- update and delete it over the REST APIs of Confluent Cloud, of a Kafka cluster, of a Schema
-- Registry, of Flink or of Tableflow. The handlers share what this development is about: how a reply
-- is read and an error is described, how a client gets the credentials that a request carries, how
-- a long operation is waited for, and how a Kafka ACL is named.
--
-- Base: the libraries' names, Boolean tests on numbers, lists of bytes, and Go's signed integers.
-- Http: internal/provider/utils.go, the tests of a reply's status and body and
--   `createDescriptiveError` (Http.Descriptive). A body is a stream that is read once: each function
--   returns the reply as it leaves it. What a reply counts as after that is in Http.NotFound.
-- Wait: internal/provider/utils_wait.go. Provision, Special, Flink, Catalog, Deletion and Sync have
--   its refresh functions (`networkProvisionStatus` is `network_provision_status`), and Waiters and
--   its children its functions that wait (`waitForNetworkToProvision` is
--   `wait_for_network_to_provision`). The loop between the two is the plugin SDK's
--   `StateChangeConf.WaitForStateContext`: Sdk has its configuration and, as the record `Waiter`, what
--   its documentation says of it; PollLoop has one loop that keeps to that. Provisioned, Deleted and
--   Mistaken are on the waits as a whole, Resumed on one of Flink, Unanswered on the refreshes of
--   Catalog.
-- Oauth: internal/provider/oauth.go and the methods of internal/provider/utils.go that renew tokens
--   and put credentials into a request's context. Tokens requests them, Session is the state of a
--   client (its two tokens) and the renewal, Packages is a context's values under the keys of the
--   generated packages, Contexts and RestClients are the methods. Validity, External, Renewal, Kept,
--   Carried and RestCarried are on these.
-- Kafka: internal/provider/resource_kafka_acl.go, an ACL's identifier (Acl) and its handlers
--   (AclHandlers), and from internal/provider/resource_kafka_topic.go the settings that a handler takes
--   from the provider block, the environment or the resource (Settings) and the REST client made from
--   them (Clients). Separated is `strings.Split`
--   and `strings.Join`. AclId, AclState, AclDrift and AclRefresh are on these. They use the calls of
--   Wait and the statuses of Http.
-- Sources: internal/provider/data_source_*.go, the data sources that list. Pages is the loop over the
--   pages of a list that all `load...` functions have, Loads these functions, Lookup the search for
--   the one item that has a name, Reads the functions that read by a name
--   (`environmentDataSourceReadUsingDisplayName` is `environment_data_source_read_using_display_name`).
--   Complete is on loads, Unique on reads.
-- Schema: internal/provider/resource_schema.go. Id is a resource's identifier, Request the request that
--   registers a schema, Settings the registry and its credentials, Loads how a schema is found and the
--   resource set from it, Handlers the handlers, Plan what `SetSchemaDiff` checks while a plan is made.
--   The REST API is answered by the calls before it that validate, register or delete, which a handler
--   returns as a log. IdTrip is on identifiers, Kept on reads, Ordered on creation and deletion, Checked
--   on plans, Imported on an import.
-- Statement: internal/provider/resource_flink_statement.go. Settings is where the endpoint, the ids and
--   the credentials come from, Gateway the REST API and the resource, Properties the properties and
--   the identifier, Reads how the resource is set, Handlers the handlers, Plan what
--   `resourceFlinkStatementDiff` checks. The calls are logged as in Schema, the waits are those of Wait.
--   Throughout carries what holds of errors and reads to the handlers, Guards is on what is refused, Sent on
--   the calls of an update, Secrets on the properties.
-- Topic: internal/provider/resource_kafka_topic.go. Configs is a topic's settings and the batch of edits
--   that an update makes from the old and the new ones, Cluster the REST API and the resource, Handlers the
--   handlers. The calls are logged as in Schema, the wait is that of Wait, and the cluster, the endpoint
--   and the credentials are those of Kafka. Applied and Settled are on the batch, Succeeded and Updated
--   on an update.
-- ClusterConfig: internal/provider/resource_kafka_cluster_config.go, the resource and its handlers (Handlers);
--   Replaced is on an update. Settings are those of Topic.
-- ClusterLink: internal/provider/resource_cluster_link.go, what is checked of a link before it is created
--   (Links), the request that creates it and the cluster that the request is sent to (Request), and how it is
--   created and read (Reads). Complete is on the request, Undrifted on a read. The update, the deletion and the
--   import are left out.
--
-- Names are the source's in another spelling. An API call is a function from its arguments to its
-- three results (value, response, error); a poll of a wait is such a function for each number of
-- a poll. A panic on a nil pointer is a result of its own. The text of an error message is left out,
-- and its values are kept. Log lines are left out, except where they read a body or dereference
-- a pointer.
--
-- Times. A wait counts in seconds, and its `PollLoop` has a fuel above the polls that fit
-- into the timeout. An OAuth time is in nanoseconds on natural numbers. The lifetime of
-- an external token is an int64 of nanoseconds that wraps around, and may be negative; that of an STS token
-- is an int32 of seconds, not negative, and fits into a `time.Duration`. A load of pages has one unit of fuel
-- for each page. The fuel of `itoa` is above the number that it
-- prints.
--
-- Parameters, for code that is not in the repository: the API clients and their constants, gzip, `url.Parse`,
-- `json.Unmarshal`, the clock, and the SDK's loop.
--
-- Not modelled: the schemas of resources and data sources, which are tables for the SDK; most CRUD
-- handlers, which fill request structures and copy fields of replies; the resource importer, which
-- writes files; generated clients, which are not in the repository; and tests.
pub mod Base
pub mod Http
pub mod Wait
pub mod Oauth
pub mod Kafka
pub mod Sources
pub mod Schema
pub mod Statement
pub mod Topic
pub mod ClusterConfig
pub mod ClusterLink
