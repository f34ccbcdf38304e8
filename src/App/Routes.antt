-- ===== src/App/Routes.antt =====
-- The table of the routes, `AppRoutes` of frontend/src/App.tsx. Which pattern a path belongs to is
-- decided by the router.
pub mod Laws
use mrboard.Shared.{List, [], ◌∷◌, ◌++◌, Text, lit}
use mrboard.App.Element.{Element, page, main_layout, protected_route, navigate_to, login_or_home}

abbrev protected_page : Text → Element
protected_page name = protected_route (main_layout (page name))

-- RBAC and the lists around it.
abbrev management_routes : List (Text × Element)
management_routes =
    (lit "/login", login_or_home)
    ∷ (lit "/", protected_page (lit "HomePage"))
    ∷ (lit "/cluster/list", protected_page (lit "ClusterList"))
    ∷ (lit "/cluster/add", protected_page (lit "ClusterAdd"))
    ∷ (lit "/cluster/edit/:id", protected_page (lit "ClusterEdit"))
    ∷ (lit "/deploy/list", protected_page (lit "DeployList"))
    ∷ (lit "/deploy/detail", protected_page (lit "DeployDetail"))
    ∷ (lit "/deploy/yaml", protected_page (lit "DeployYaml"))
    ∷ (lit "/deploy/create", protected_page (lit "DeployCreate"))
    ∷ (lit "/deploy/create-by-yaml", protected_page (lit "DeployCreateByYaml"))
    ∷ (lit "/rbac/adminList", protected_page (lit "AdminList"))
    ∷ (lit "/rbac/adminEdit/:id", protected_page (lit "AdminEdit"))
    ∷ (lit "/rbac/adminAdd", protected_page (lit "AdminEdit"))
    ∷ (lit "/rbac/roleList", protected_page (lit "RoleList"))
    ∷ (lit "/rbac/roleToUserList", protected_page (lit "RoleToUserList"))
    ∷ (lit "/rbac/roleToNodeList", protected_page (lit "RoleToNodeList"))
    ∷ (lit "/rbac/clusterToUserList", protected_page (lit "ClusterToUserList"))
    ∷ (lit "/rbac/myClusterList", protected_page (lit "MyClusterList"))
    ∷ (lit "/rbac/groupList", protected_page (lit "GroupList"))
    ∷ (lit "/rbac/nodeList", protected_page (lit "NodeList"))
    ∷ (lit "/rbac/auditLogList", protected_page (lit "AuditLogList"))
    ∷ (lit "/rbac/lockList", protected_page (lit "LockList"))
    ∷ (lit "/rbac/myinfo", protected_page (lit "MyInfo"))
    ∷ (lit "/rbac/changepassword", protected_page (lit "ChangePassword"))
    ∷ (lit "/search", protected_page (lit "SearchPage"))
    ∷ (lit "/favorite/list", protected_page (lit "FavoriteList"))
    ∷ []

-- The applications, the AI pages, the tools, CI/CD and the wiki.
abbrev tool_routes : List (Text × Element)
tool_routes =
    (lit "/app/list", protected_page (lit "AppNameList"))
    ∷ (lit "/app/add", protected_page (lit "AppNameAdd"))
    ∷ (lit "/app/edit/:id", protected_page (lit "AppNameEdit"))
    ∷ (lit "/app/down", protected_page (lit "AppDown"))
    ∷ (lit "/ai/chat", protected_page (lit "AIChat"))
    ∷ (lit "/ai/analysis", protected_page (lit "AIAnalysis"))
    ∷ (lit "/tools/apply-yaml", protected_page (lit "ApplyYAML"))
    ∷ (lit "/tools/clone-resource", protected_page (lit "CloneResource"))
    ∷ (lit "/monitor/dashboard", protected_page (lit "GrafanaDashboard"))
    ∷ (lit "/monitor/prometheus", protected_page (lit "GrafanaDashboard"))
    ∷ (lit "/monitor/service-health", protected_page (lit "GrafanaDashboard"))
    ∷ (lit "/cicd/list", protected_page (lit "CICDList"))
    ∷ (lit "/cicd/pipelines", protected_page (lit "PipelinesIndex"))
    ∷ (lit "/cicd/pipelines/add", protected_page (lit "PipelinesAdd"))
    ∷ (lit "/cicd/pipelines/edit", protected_page (lit "PipelinesEdit"))
    ∷ (lit "/cicd/pipelines/detail", protected_page (lit "PipelinesDetail"))
    ∷ (lit "/cicd/pipelines/log", protected_page (lit "PipelinesLog"))
    ∷ (lit "/cicd/jenkins", protected_page (lit "JenkinsList"))
    ∷ (lit "/cicd/jenkins/detail", protected_page (lit "JenkinsJobDetail"))
    ∷ (lit "/cicd/jenkins/log", protected_page (lit "JenkinsLog"))
    ∷ (lit "/cicd/aliyunak", protected_page (lit "AliyunAKList"))
    ∷ (lit "/wiki/list", protected_page (lit "WikiList"))
    ∷ (lit "/wiki/detail/:id", protected_page (lit "WikiDetail"))
    ∷ (lit "/wiki/add", protected_page (lit "WikiAdd"))
    ∷ (lit "/wiki/edit/:id", protected_page (lit "WikiEdit"))
    ∷ (lit "/wiki/columns", protected_page (lit "ColumnList"))
    ∷ []

-- The lists of the resources of Kubernetes.
abbrev resource_routes : List (Text × Element)
resource_routes =
    (lit "/k8s/node", protected_page (lit "NodeK8sList"))
    ∷ (lit "/k8s/nodepool", protected_page (lit "NodePoolList"))
    ∷ (lit "/k8s/namespace", protected_page (lit "NamespaceK8sList"))
    ∷ (lit "/k8s/podmetrics", protected_page (lit "TopPodMetric"))
    ∷ (lit "/k8s/event", protected_page (lit "EventK8sList"))
    ∷ (lit "/k8s/pod", protected_page (lit "PodK8sList"))
    ∷ (lit "/k8s/statefulset", protected_page (lit "StatefulSetList"))
    ∷ (lit "/k8s/daemonset", protected_page (lit "DaemonSetList"))
    ∷ (lit "/k8s/job", protected_page (lit "JobK8sList"))
    ∷ (lit "/k8s/cronjob", protected_page (lit "CronJobK8sList"))
    ∷ (lit "/k8s/crd", protected_page (lit "CrdList"))
    ∷ (lit "/k8s/hpa", protected_page (lit "HpaList"))
    ∷ (lit "/k8s/hpa/detail", protected_page (lit "HpaDetail"))
    ∷ (lit "/k8s/service", protected_page (lit "ServiceK8sList"))
    ∷ (lit "/k8s/ingress", protected_page (lit "IngressList"))
    ∷ (lit "/k8s/gatewayclass", protected_page (lit "GatewayClassList"))
    ∷ (lit "/k8s/gateway", protected_page (lit "GatewayK8sList"))
    ∷ (lit "/k8s/httproute", protected_page (lit "HttpRouteList"))
    ∷ (lit "/k8s/grpcroute", protected_page (lit "GrpcRouteList"))
    ∷ (lit "/k8s/tcproute", protected_page (lit "TcpRouteList"))
    ∷ (lit "/k8s/udproute", protected_page (lit "UdpRouteList"))
    ∷ (lit "/k8s/configmap", protected_page (lit "ConfigMapList"))
    ∷ (lit "/k8s/secret", protected_page (lit "SecretK8sList"))
    ∷ (lit "/k8s/pvc", protected_page (lit "PvcList"))
    ∷ (lit "/k8s/pv", protected_page (lit "PvList"))
    ∷ (lit "/k8s/storageclass", protected_page (lit "StorageClassList"))
    ∷ (lit "/k8s/clusterrolebinding", protected_page (lit "ClusterRoleBindingList"))
    ∷ (lit "/k8s/clusterroles", protected_page (lit "ClusterRolesList"))
    ∷ (lit "/k8s/rolebinding", protected_page (lit "RoleBindingList"))
    ∷ (lit "/k8s/roles", protected_page (lit "RolesK8sList"))
    ∷ (lit "/k8s/serviceaccounts", protected_page (lit "ServiceAccountsK8sList"))
    ∷ []

-- The pages that create a resource.
abbrev create_routes : List (Text × Element)
create_routes =
    (lit "/k8s/statefulset/create", protected_page (lit "StatefulSetCreate"))
    ∷ (lit "/k8s/cronjob/create", protected_page (lit "CronJobCreate"))
    ∷ (lit "/k8s/service/create", protected_page (lit "ServiceCreate"))
    ∷ (lit "/k8s/ingress/create", protected_page (lit "IngressCreate"))
    ∷ (lit "/k8s/configmap/create", protected_page (lit "ConfigMapCreate"))
    ∷ (lit "/k8s/secret/create", protected_page (lit "SecretCreate"))
    ∷ (lit "/k8s/hpa/create", protected_page (lit "HpaCreate"))
    ∷ (lit "/k8s/gateway/create", protected_page (lit "GatewayCreate"))
    ∷ (lit "/k8s/httproute/create", protected_page (lit "HttpRouteCreate"))
    ∷ (lit "/k8s/grpcroute/create", protected_page (lit "GrpcRouteCreate"))
    ∷ (lit "/k8s/tcproute/create", protected_page (lit "TcpRouteCreate"))
    ∷ (lit "/k8s/udproute/create", protected_page (lit "UdpRouteCreate"))
    ∷ (lit "/k8s/namespace/create", protected_page (lit "NamespaceCreate"))
    ∷ (lit "/k8s/configmap/create-yaml", protected_page (lit "ConfigMapCreateByYaml"))
    ∷ (lit "/k8s/secret/create-yaml", protected_page (lit "SecretCreateByYaml"))
    ∷ (lit "/k8s/service/create-yaml", protected_page (lit "ServiceCreateByYaml"))
    ∷ (lit "/k8s/ingress/create-yaml", protected_page (lit "IngressCreateByYaml"))
    ∷ (lit "/k8s/pv/create-yaml", protected_page (lit "PvCreateByYaml"))
    ∷ (lit "/k8s/pvc/create-yaml", protected_page (lit "PvcCreateByYaml"))
    ∷ []

-- The pages of one resource.
abbrev detail_routes : List (Text × Element)
detail_routes =
    (lit "/pod/detail", protected_page (lit "PodDetail"))
    ∷ (lit "/pod/log", protected_page (lit "PodLog"))
    ∷ (lit "/pod/terminal", protected_page (lit "PodTerminal"))
    ∷ (lit "/node/detail", protected_page (lit "NodeDetail"))
    ∷ (lit "/k8s/statefulset/detail", protected_page (lit "StatefulSetDetail"))
    ∷ (lit "/k8s/daemonset/detail", protected_page (lit "DaemonSetDetail"))
    ∷ (lit "/k8s/job/detail", protected_page (lit "JobDetail"))
    ∷ (lit "/k8s/cronjob/detail", protected_page (lit "CronJobDetail"))
    ∷ (lit "/k8s/service/detail", protected_page (lit "ServiceDetail"))
    ∷ (lit "/k8s/ingress/detail", protected_page (lit "IngressDetail"))
    ∷ (lit "/k8s/gatewayclass/detail", protected_page (lit "GatewayClassDetail"))
    ∷ (lit "/k8s/gateway/detail", protected_page (lit "GatewayDetail"))
    ∷ (lit "/k8s/httproute/detail", protected_page (lit "HttpRouteDetail"))
    ∷ (lit "/k8s/grpcroute/detail", protected_page (lit "GrpcRouteDetail"))
    ∷ (lit "/k8s/tcproute/detail", protected_page (lit "TcpRouteDetail"))
    ∷ (lit "/k8s/udproute/detail", protected_page (lit "UdpRouteDetail"))
    ∷ (lit "/k8s/configmap/detail", protected_page (lit "ConfigMapDetail"))
    ∷ (lit "/k8s/secret/detail", protected_page (lit "SecretDetail"))
    ∷ (lit "/k8s/pvc/detail", protected_page (lit "PvcDetail"))
    ∷ (lit "/k8s/pv/detail", protected_page (lit "PvDetail"))
    ∷ []

-- The pages that show YAML.
abbrev yaml_routes : List (Text × Element)
yaml_routes =
    (lit "/k8s/statefulset/yaml", protected_page (lit "StatefulSetYaml"))
    ∷ (lit "/k8s/daemonset/yaml", protected_page (lit "DaemonSetYaml"))
    ∷ (lit "/k8s/job/yaml", protected_page (lit "JobYaml"))
    ∷ (lit "/k8s/cronjob/yaml", protected_page (lit "CronJobYaml"))
    ∷ (lit "/k8s/pod/yaml", protected_page (lit "PodYaml"))
    ∷ (lit "/k8s/node/yaml", protected_page (lit "NodeYaml"))
    ∷ (lit "/k8s/namespace/yaml", protected_page (lit "NamespaceYaml"))
    ∷ (lit "/k8s/service/yaml", protected_page (lit "ServiceYaml"))
    ∷ (lit "/k8s/ingress/yaml", protected_page (lit "IngressYaml"))
    ∷ (lit "/k8s/gatewayclass/yaml", protected_page (lit "GatewayClassYaml"))
    ∷ (lit "/k8s/gateway/yaml", protected_page (lit "GatewayYaml"))
    ∷ (lit "/k8s/httproute/yaml", protected_page (lit "HttpRouteYaml"))
    ∷ (lit "/k8s/grpcroute/yaml", protected_page (lit "GrpcRouteYaml"))
    ∷ (lit "/k8s/tcproute/yaml", protected_page (lit "TcpRouteYaml"))
    ∷ (lit "/k8s/udproute/yaml", protected_page (lit "UdpRouteYaml"))
    ∷ (lit "/k8s/pvc/yaml", protected_page (lit "PvcYaml"))
    ∷ (lit "/k8s/pv/yaml", protected_page (lit "PvYaml"))
    ∷ (lit "/k8s/storageclass/yaml", protected_page (lit "StorageClassYaml"))
    ∷ (lit "/k8s/storageclass/detail", protected_page (lit "StorageClassDetail"))
    ∷ (lit "/k8s/clusterrolebinding/yaml", protected_page (lit "ClusterRoleBindingYaml"))
    ∷ (lit "/k8s/clusterroles/yaml", protected_page (lit "ClusterRolesYaml"))
    ∷ (lit "/k8s/rolebinding/yaml", protected_page (lit "RoleBindingYaml"))
    ∷ (lit "/k8s/roles/yaml", protected_page (lit "RolesYaml"))
    ∷ (lit "/k8s/serviceaccounts/yaml", protected_page (lit "ServiceAccountsYaml"))
    ∷ (lit "/k8s/crd/yaml", protected_page (lit "CrdYaml"))
    ∷ (lit "/k8s/hpa/yaml", protected_page (lit "HpaYaml"))
    ∷ (lit "/k8s/replicaset/yaml", protected_page (lit "ReplicaSetYaml"))
    ∷ []

-- The rest.
abbrev other_routes : List (Text × Element)
other_routes =
    (lit "/k8s/namespace/reslimit", protected_page (lit "NamespaceResLimit"))
    ∷ (lit "/ops/backup/create", protected_page (lit "CreateBackup"))
    ∷ (lit "/ops/backup", protected_page (lit "BackupList"))
    ∷ (lit "/alerts", protected_page (lit "AlertDashboard"))
    ∷ (lit "/log/loki", protected_page (lit "GrafanaDashboard"))
    ∷ (lit "/log/trace", protected_page (lit "GrafanaDashboard"))
    ∷ (lit "/log/trace/detail", protected_page (lit "GrafanaDashboard"))
    ∷ (lit "*", navigate_to (lit "/"))
    ∷ []

abbrev pub routes : List (Text × Element)
routes =
    management_routes
    ++ (tool_routes
        ++ (resource_routes ++ (create_routes ++ (detail_routes ++ (yaml_routes ++ other_routes)))))
