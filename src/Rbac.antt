-- ===== src/Rbac.antt =====
-- The administration of permission nodes (frontend/src/pages/rbac/NodeList.tsx; the tree of
-- RoleToNodeList.tsx is the same code).
pub mod NodeTree
pub mod NodeList
