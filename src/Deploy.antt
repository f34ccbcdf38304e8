-- ===== src/Deploy.antt =====
-- The list of deployments and its operations (frontend/src/pages/deploy/DeployList.tsx).
pub mod Item
pub mod Rollout
pub mod Page
pub mod Create
