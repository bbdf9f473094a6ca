-- ===== src/ClusterLink.antt =====
-- internal/provider/resource_cluster_link.go: what is checked of a cluster link before it is created
-- (Links), the request that creates it, the cluster that the request is sent to (Request), and how a link is
-- created and read (Reads). Complete is on the request, Undrifted on a read.
pub mod Links
pub mod Request
pub mod Complete
pub mod Reads
pub mod Undrifted
mod Tests
