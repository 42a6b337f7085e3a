-- ===== src/Cluster.antt =====
-- internal/cluster and internal/query/router.go: which node a key belongs to.
pub mod Ring
pub mod Membership
