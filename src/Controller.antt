-- ===== src/Controller.antt =====
-- cloud_native_entry_task/controllers: the controller that works on unstructured objects.
pub mod Client
pub mod Spec
pub mod Resources
pub mod Ensure
pub mod Pods
pub mod Reconcile
pub mod Run
pub mod Replicas
pub mod Agreement
mod Tests
