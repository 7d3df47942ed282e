-- ===== src/Operator.antt =====
-- The Kubernetes operator (operator/api/v1alpha1 and operator/internal/controller).
pub mod Types
pub mod Client
pub mod Resources
pub mod Pods
pub mod Reconcile
pub mod Sample
