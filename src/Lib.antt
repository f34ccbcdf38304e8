-- ===== src/Lib.antt =====
-- Models and proofs for the frontend of mrboard, a console for Kubernetes clusters.
--
-- The frontend is a React application (frontend/src) over a Go server. Each page keeps its state in hooks,
-- sends requests through `api` of lib/api.ts and renders what state and answers give. The models are of
-- that state: an operation is a function from the state to the next one, a request is a value that an
-- operation returns, and the answer to it is the argument of an operation of its own. What a component
-- renders is a function of its state.
--
-- Parts, and where they are modelled:
--   Shared.antt and Shared/    text, lists, association lists, sorting; Shared/Assoc.antt is a JavaScript
--                              record or Map, which keeps the order of first insertion.
--   Log/Filters.antt           FilterState, filterStateToQueryString and parseFilterStateFromURL
--                              (frontend/src/types/log.ts).
--   Log/Filters/Reducers.antt  the updates of frontend/src/hooks/useLogFilters.ts.
--   Log/Filters/TagBar.antt    the tags and their crosses
--                              (frontend/src/pages/log/LogDrilldown/FilterTagBar.tsx).
--   Log/Window.antt            the rendered rows of the log list
--                              (frontend/src/pages/log/LogDrilldown/LogEntryList.tsx).
--   Trace/Span.antt, Trace/Tree.antt
--                              buildSpanTree, flattenVisible and the expansion of rows
--                              (frontend/src/pages/log/TraceDetail.tsx). The nodes, which the code shares by
--                              reference, are entries of a store by span id.
--   Trace/Services.antt        the services, roots and depths of buildLayout
--                              (frontend/src/pages/log/ServiceGraph.tsx).
--   Trace/Services/Layout.antt, Trace/Services/Page.antt
--                              the nodes and edges of buildLayout, and the page's state (the same file).
--   Trace/Structure.antt       buildMergeTree (frontend/src/pages/log/StructureView.tsx).
--   Trace/SpanLogs.antt        the logs of the selected span (frontend/src/pages/log/TraceDetail.tsx).
--   Log/Entry.antt             the data of the log explorer (frontend/src/types/log.ts).
--   Log/Drilldown.antt, Log/Drilldown/State.antt, Log/Drilldown/Tail.antt,
--   Log/Drilldown/Rows.antt    the queries, the answers, the live tail and the expanded list
--                              (frontend/src/pages/log/LogDrilldown.tsx).
--   Hooks/UseApi.antt, Hooks/UseTraceMetrics.antt, Hooks/UsePrometheus.antt
--                              the hooks of the same names (frontend/src/hooks) and the query strings of
--                              frontend/src/lib/api.ts.
--   Metrics/AutoQuery.antt, Metrics/SearchBox.antt, Metrics/Chart.antt
--                              queries, search and chart of the metrics explorer
--                              (frontend/src/pages/monitor/PrometheusMetrics.tsx).
--   Metrics/Explorer.antt, Metrics/Explorer/Cards.antt,
--   Metrics/Explorer/Listing.antt, Metrics/Explorer/Detail.antt
--                              the state of the explorer, its cards, its list and the view of one metric
--                              (the same file).
--   Log/Viewer.antt, Log/Viewer/Query.antt
--                              the log viewer (frontend/src/pages/log/LogViewer.tsx).
--   Log/Facets.antt            the panel of the facets (frontend/src/pages/log/LogDrilldown/FacetPanel.tsx
--                              and FacetGroup.tsx).
--   Trace/Viewer.antt          the search of traces (frontend/src/pages/log/TraceViewer.tsx).
--   Metrics/ServiceHealth.antt the health of the services (frontend/src/pages/monitor/ServiceHealth.tsx).
--   Ai/Stream.antt             the events of an analysis, as controllers/ai_analysis.go writes them and
--                              frontend/src/pages/ai/AIAnalysis.tsx reads them.
--   Ai/Analysis.antt, Ai/Queries.antt
--                              the page of the analyses (frontend/src/pages/ai/AIAnalysis.tsx).
--   Ai/Chat.antt               the chat (frontend/src/pages/ai/AIChat.tsx).
--   Ai/RawResponse.antt        the JSON in an answer (frontend/src/pages/ai/AnalysisReport.tsx).
--   Deploy/Page.antt, Deploy/Rollout.antt, Deploy/Create.antt
--                              the list of deployments, the restart of one, and the dialog that creates one
--                              (frontend/src/pages/deploy/DeployList.tsx).
--   K8s/ListPage.antt, K8s/CreateDialog.antt
--                              what the lists of Kubernetes resources share (frontend/src/pages/k8s, and
--                              frontend/src/components/shared/ConfirmDialog.tsx), over a record that says
--                              what is particular to a resource.
--   K8s/HttpRoute.antt, K8s/Service.antt, K8s/ConfigMap.antt, K8s/Secret.antt, K8s/CronJob.antt,
--   K8s/StatefulSet.antt       the lists HttpRouteList.tsx, ServiceList.tsx, ConfigMapList.tsx,
--                              SecretList.tsx, CronJobList.tsx and StatefulSetList.tsx of that folder.
--   K8s/Hpa.antt, K8s/Gateway.antt, K8s/Ingress.antt, K8s/VolumeClaim.antt
--                              the lists HpaList.tsx, GatewayList.tsx, IngressList.tsx and PvcList.tsx.
--   Cicd/Pipelines.antt        the runs of a pipeline (frontend/src/pages/cicd/PipelinesIndex.tsx).
--   App/Element.antt, App/Routes.antt, App/Menu.antt
--                              the routes (frontend/src/App.tsx), guarded by the session of
--                              Session/Auth.antt, and the menu that links to them
--                              (frontend/src/layouts/MainLayout.tsx).
--   Tools/Clone.antt           the form that clones resources
--                              (frontend/src/pages/tools/CloneResource.tsx).
--   Components/DataTable.antt  the table with pages (frontend/src/components/shared/DataTable.tsx).
--   Components/KeyValue.antt   the editor of a record (frontend/src/components/shared/KeyValueEditor.tsx).
--   Session/Api.antt           `api` (frontend/src/lib/api.ts).
--   Session/Auth.antt          the session (frontend/src/hooks/useAuth.tsx); it sends its requests through
--                              the model of `api`.
--   Rbac/NodeTree.antt, Rbac/NodeList.antt
--                              the tree of permission nodes and its page
--                              (frontend/src/pages/rbac/NodeList.tsx).
-- The files below these hold the proofs, each named for what it is about; Tests/ runs the models on
-- concrete inputs.
--
-- Choices that hold throughout:
--   Text is a list of UTF-16 code units.
--   A record with text keys is the list of its entries in order of insertion, with `undefined` a value of
--   its own. Keys that JavaScript orders by number ("7") or finds on Object.prototype are outside.
--   A search string is the list of its pairs: the percent encoding of URLSearchParams is not modelled.
--   What throws returns a result that says so: type_error, or the message of the Error.
--   Numbers are natural numbers: pixels, ids, start times. Pages have a positive size. What parseInt and
--   parseFloat read has a sign or is NaN; it is exact, where JavaScript rounds.
--   flattenVisible recurses over nodes that may be shared, so its model is on fuel, the number of nested
--   calls; the number of span ids is proved to be enough.
--   Merging traces is on fuel as well: one nested call for each operation, and one more, is proved enough.
--   The search of the service graph is on fuel too: one round for each root and each dependency is proved
--   to be enough.
--   Where events come in any order, they are the constructors of a step relation, or the entries of a list
--   of events, and what holds is proved for every state that is reached from the first one; a wait ends
--   where no event leaves it open.
--   The poll of a restart needs no fuel: it is proved to end by the count of its ticks.
--   Which route a path belongs to is the router's choice: the theorems hold for each row of the table.
--   The printing of numbers, toFixed, toLowerCase and JSON.parse are arguments.
--
-- Not modelled: the Go server and its calls of Kubernetes, whose answers are arguments; the pages that only
-- fetch a list and draw it; the styling; the highlighting of a search text by a regular expression.
pub mod Shared
pub mod K8s
pub mod Log
pub mod Trace
pub mod Components
pub mod Session
pub mod Hooks
pub mod Metrics
pub mod Tools
pub mod Rbac
pub mod Ai
pub mod Deploy
pub mod App
pub mod Cicd
pub mod Tests
