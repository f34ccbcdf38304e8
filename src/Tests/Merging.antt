-- ===== src/Tests/Merging.antt =====
-- Merged traces and the logs of a span at concrete inputs (frontend/src/pages/log/StructureView.tsx,
-- frontend/src/pages/log/TraceDetail.tsx).
use mrboard.Shared.{
  ◌≡◌, ◌≤◌, refl, some, List, [], ◌∷◌, Text, text_eq, lit, keep, split, split_from,
}
use mrboard.Shared.Assoc.{get, put}
use mrboard.Shared.Members.{includes, add_member}
use mrboard.Trace.Span.{Span}
use mrboard.Trace.Structure.{
  Trees, nil, cons, build_merge_tree, merge_traces, merge_spans, span_map, change, build_nodes,
  root_keys, operation_of, sort_trees, insert_tree,
}
use mrboard.Trace.Structure.Laws.{spans_counted}
use mrboard.Trace.Structure.Counts.{span_total, build_merge_tree_lem}

abbrev span : Text → Text → Text → Text → Span
span id parent service operation = record {
  span_id = id;
  trace_id = lit "t";
  parent_span_id = parent;
  operation_name = operation;
  service_name = service;
  start_time = 0;
  duration = 5;
  status = lit "error";
  tags = [];
}

abbrev traces : List (List Span)
traces =
    (span (lit "1") [] (lit "web") (lit "a:b") ∷ span (lit "2") (lit "1") (lit "db") (lit "q") ∷ [])
    ∷ []

-- The operation's name is cut at its colon.
merged_test :
    build_merge_tree traces
    ≡ some (
        cons
          (record {
            service_name = lit "web";
            operation_name = lit "a";
            span_count = 1;
            total_duration = 5;
            error_count = 1;
          })
          (cons
            (record {
              service_name = lit "db";
              operation_name = lit "q";
              span_count = 1;
              total_duration = 5;
              error_count = 1;
            })
            nil
            nil)
          nil)
unfolding build_merge_tree merge_traces merge_spans span_map change build_nodes root_keys
    operation_of sort_trees insert_tree get put includes add_member keep split split_from
merged_test = refl

build_merge_tree_lem_example :
    (t : Trees) × (build_merge_tree traces ≡ some t) × (spans_counted t ≤ span_total traces)
build_merge_tree_lem_example = build_merge_tree_lem traces
