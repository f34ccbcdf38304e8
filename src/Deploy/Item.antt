-- ===== src/Deploy/Item.antt =====
-- A row of the list of deployments, `DeployListItem` of frontend/src/types/index.ts.
use mrboard.Shared.{ℕ, Text}

pub record DeployListItem : Type 0 where
  pub deploy_name : Text
  pub name_space : Text
  pub pod_number : ℕ
  pub image_url : Text
  pub labels : Text
  pub create_time : Text
  pub update_time : Text
  pub replicas : ℕ
  pub available_replicas : ℕ
