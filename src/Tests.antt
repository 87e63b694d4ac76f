-- ===== src/Tests.antt =====
-- Tests of the definitions on concrete inputs, and each property at an input that meets its conditions.
mod BytesTests
mod LoaderTests
mod BacklogTests
mod DatabaseTests
mod ReplicaTests
mod SlaveFeedTests
mod ClusterTests
mod ConnectionTests
mod ReplicatedTests
mod GossipTests
mod LinkTests
mod SetupTests
