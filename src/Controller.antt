-- ===== src/Controller.antt =====
-- internal/controller/llminferencecluster_controller.go: the reconciler, part by part.
pub mod Autoscale
pub mod Labels
pub mod Shards
pub mod Children
pub mod Workloads
pub mod Status
pub mod Reconcile
pub mod Settled
