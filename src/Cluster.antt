-- ===== src/Cluster.antt =====
-- cluster/: which node of a cluster serves a URL, and the names of the nodes.
pub mod Func
pub mod Node
pub mod Manager
pub mod Cf
