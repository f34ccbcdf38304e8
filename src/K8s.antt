-- ===== src/K8s.antt =====
-- The lists of Kubernetes resources (frontend/src/pages/k8s).
pub mod ListPage
pub mod CreateDialog
pub mod HttpRoute
pub mod Service
pub mod ConfigMap
pub mod Secret
pub mod CronJob
pub mod StatefulSet
pub mod Hpa
pub mod Gateway
pub mod Ingress
pub mod VolumeClaim
