-- ===== src/App/Menu.antt =====
-- The menu of the layout, `navItems` and `SidebarNav` of frontend/src/layouts/MainLayout.tsx.
pub mod Laws
use mrboard.Shared.{
  Bool, true, false, not, Option, none, some, List, [], ◌∷◌, ◌++◌, if◌then◌else◌, ◌==◌, Text,
  text_eq, lit, or_else,
}
use mrboard.Shared.Assoc.{get, put}

pub data NavItem : Type 0 where
  link : (label path : Text) → NavItem
  group : (label : Text) (children : List (Text × Text)) → NavItem

abbrev nav_items : List NavItem
nav_items =
    group (lit "K8S管理") (
      (lit "全部集群", lit "/cluster/list")
      ∷ (lit "我的k8s", lit "/rbac/myClusterList")
      ∷ (lit "我的收藏", lit "/favorite/list")
      ∷ [])
    ∷ group (lit "集群信息") (
        (lit "节点[node]", lit "/k8s/node")
        ∷ (lit "命名空间[ns]", lit "/k8s/namespace")
        ∷ (lit "Pod指标", lit "/k8s/podmetrics")
        ∷ (lit "集群角色绑定", lit "/k8s/clusterrolebinding")
        ∷ (lit "集群角色", lit "/k8s/clusterroles")
        ∷ (lit "角色绑定", lit "/k8s/rolebinding")
        ∷ (lit "角色", lit "/k8s/roles")
        ∷ (lit "服务帐号", lit "/k8s/serviceaccounts")
        ∷ (lit "事件中心", lit "/k8s/event")
        ∷ [])
    ∷ group (lit "工作负载") (
        (lit "应用部署", lit "/deploy/list")
        ∷ (lit "有状态服务部署", lit "/k8s/statefulset")
        ∷ (lit "守护进程部署", lit "/k8s/daemonset")
        ∷ (lit "任务", lit "/k8s/job")
        ∷ (lit "定时任务", lit "/k8s/cronjob")
        ∷ (lit "Pod管理", lit "/k8s/pod")
        ∷ (lit "自定义资源管理", lit "/k8s/crd")
        ∷ (lit "弹性伸缩", lit "/k8s/hpa")
        ∷ [])
    ∷ group (lit "网络")
        ((lit "服务[service]", lit "/k8s/service") ∷ (lit "路由[ingress]", lit "/k8s/ingress") ∷ [])
    ∷ group (lit "网关管理") (
        (lit "控制器[gc]", lit "/k8s/gatewayclass")
        ∷ (lit "网关[gtw]", lit "/k8s/gateway")
        ∷ (lit "HTTP路由", lit "/k8s/httproute")
        ∷ (lit "GRPC路由", lit "/k8s/grpcroute")
        ∷ (lit "TCP路由", lit "/k8s/tcproute")
        ∷ (lit "UDP路由", lit "/k8s/udproute")
        ∷ [])
    ∷ group (lit "配置管理")
        ((lit "配置项[cm]", lit "/k8s/configmap") ∷ (lit "加密字典[secret]", lit "/k8s/secret") ∷ [])
    ∷ group (lit "存储") (
        (lit "存储声明[pvc]", lit "/k8s/pvc")
        ∷ (lit "存储卷[pv]", lit "/k8s/pv")
        ∷ (lit "存储类", lit "/k8s/storageclass")
        ∷ [])
    ∷ group (lit "运维管理") (
        (lit "应用集", lit "/app/list")
        ∷ (lit "资源克隆", lit "/tools/clone-resource")
        ∷ (lit "备份管理", lit "/ops/backup")
        ∷ [])
    ∷ group (lit "构建发布") (
        (lit "代码发布", lit "/cicd/list")
        ∷ (lit "阿里云AK", lit "/cicd/aliyunak")
        ∷ (lit "Jenkins设置", lit "/cicd/jenkins")
        ∷ (lit "流水线", lit "/cicd/pipelines")
        ∷ [])
    ∷ group (lit "可观测性")
        ((lit "Grafana", lit "/monitor/dashboard") ∷ (lit "告警管理", lit "/alerts") ∷ [])
    ∷ group (lit "权限管理") (
        (lit "管理员", lit "/rbac/adminList")
        ∷ (lit "角色列表", lit "/rbac/roleList")
        ∷ (lit "目录分组", lit "/rbac/groupList")
        ∷ (lit "目录结构", lit "/rbac/nodeList")
        ∷ (lit "集群授权", lit "/rbac/clusterToUserList")
        ∷ (lit "登录解锁", lit "/rbac/lockList")
        ∷ (lit "审计日志", lit "/rbac/auditLogList")
        ∷ [])
    ∷ link (lit "搜索") (lit "/search")
    ∷ link (lit "AI 分析") (lit "/ai/analysis")
    ∷ link (lit "AI助手") (lit "/ai/chat")
    ∷ []

-- `toggle` of the groups that are open.
unfoldable toggle_group : Text → List (Text × Bool) → List (Text × Bool)
toggle_group label open_groups = put label (not (or_else (get label open_groups) false)) open_groups

-- A link as it is drawn: where it leads, and whether it is marked as the place of the page.
pub record NavLink : Type 0 where
  pub path : Text
  pub active : Bool

abbrev nav_link : Text → Text → NavLink
nav_link location path = record { path = path; active = location == path }

abbrev child_links : Text → List (Text × Text) → List NavLink
child_links location [] = []
child_links location ((label, path) ∷ children) =
    nav_link location path ∷ child_links location children

-- The links of the menu at a location; those of a closed group are drawn with height 0.
nav_links : Text → List NavItem → List NavLink
nav_links location [] = []
nav_links location (link label path ∷ items) = nav_link location path ∷ nav_links location items
nav_links location (group label children ∷ items) =
    child_links location children ++ nav_links location items
