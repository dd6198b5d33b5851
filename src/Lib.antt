-- ===== src/Lib.antt =====
-- razorpay/trino-gateway: the Python programs that are kept with the gateway.
--
-- The repository holds a load balancer for Trino clusters, written in Go, and under .agents/skills
-- the Python programs by which its team sizes, prices and reviews the services. This library models
-- those programs; paths below are from the repository's root.
--
-- The log volume optimizer (.agents/skills/log-volume-optimizer/scripts):
-- LogScan: scan_logs.py, which finds the log statements of a repository. LogScan/Lines is the loop
--   over the lines of a file with its state of functions, braces, loops and error handlers;
--   LogScan/Go, Php and TypeScript give it the patterns of their classes. LogScan/Python is the loop
--   of `PythonLogScanner`, LogScan/Template `extract_message_template`, LogScan/Statement
--   `LogStatement` and `generate_summary`, LogScan/Files and LogScan/Repository the choice of the
--   files and `scan_repository`, LogScan/Repository/Rows a table of its languages. The file system is
--   the record `Repository` of LogScan/Files. Excludes are patterns as those of the program, which
--   are relative and have no wildcard but `*`.
--   Patterns that capture or replace are those of Regex/Engine, which tries matches in Python's order.
-- LogVolume/Decision: decision_engine.py, `DecisionEngine`. A rule takes a log entry and its daily
--   frequency and returns an outcome or nothing; `decide` runs the list of `_build_rules` to the
--   first outcome. The patterns given to `re.search` are sequences of the items of Regex.
-- LogVolume/Batch and LogVolume/Summary: `batch_decide`, which chooses each entry's frequency, and
--   `summarize_decisions`, as loops over their state. The method `get_daily_frequency` of
--   CoralogixData is an argument.
-- LogVolume/Estimate and LogVolume/Report: estimate_volume.py, `VolumeEstimator` with
--   `estimate_log`, `estimate_all` and `generate_report`.
--
-- The Kubernetes resource analyzer (.agents/skills/k8s-resource-analyzer/scripts):
-- PodResources/Inputs and PodResources/Namespace: main.py, `parse_inputs` and `analyze_namespace`,
--   which ties the parts together: pods by cluster, deployments by name, usage, analysis.
-- PodResources/Quantity: main.py, `parse_resource_value`, `extract_resource_spec` and
--   `extract_deployment_name`; a ValueError is a result.
-- PodResources/Pods and PodResources/Categories: fetch_pods.py. What kubectl answers to a query is
--   an argument, and so is `datetime.fromisoformat`.
-- PodResources/Metrics: fetch_metrics.py. What Grafana answers to a query is an argument, and so is
--   `float`.
-- PodResources/Recommend and PodResources/Analyze: analyze.py. Measured values count in millionths of
--   a millicore or of a MiB (PodResources/Usage).
--
-- The Trino analyzer (.agents/skills/trino-analyzer/scripts):
-- Trino/Scan and Trino/Plan: analyze_query_plan.py, `parse_query_plan`, line by line, with its
--   searches by regular expressions. Trino/Cost: `estimate_cost_from_plan`, in millionths of a dollar.
-- Trino/Optimize: identify_optimizations.py, `QueryOptimizer` and `optimize_query`.
--
-- The Flink optimizer (.agents/skills/flink-optimizer/scripts/analyze_flink_job.py):
-- Flink/Streams, Warnings and Jobspec: `analyze_jobspec_yaml`: the graph of the streams, the
--   warnings, and both together with what the call raises. Flink/Runtime: `analyze_backpressure` and
--   `analyze_checkpoint_performance`, on the answers of Flink's REST API.
--
-- The post-deployment monitor (.agents/skills/post-deployment-monitor/scripts):
-- PostDeployment/ImageTag: parse_image_tag.py, `parse_commit_from_image`, for tags without line breaks.
--
-- Conventions. A dict of JSON is a record whose fields are optional where the code reads them with
-- a default. Text that the code walks is a list of code points, with the `lower` and `upper` of
-- ASCII; text that it only compares is a string. Floats are exact: each module says in which unit a
-- number counts, and `round` is that of Python on the exact quotient (Prelude/Round), so the errors
-- of binary floating point are not modelled. A dict that is iterated keeps its order of insertion;
-- a sort is stable (Prelude/Sort). The only fuel is that of printing a number and of a root
-- (Prelude/Decimal, Prelude/Sqrt). It is more than the number, which each round divides.
--
-- Not modelled: command lines, files, HTTP and printing; and the Go programs.
mod Prelude
pub mod Regex
pub mod LogVolume
pub mod LogScan
pub mod PodResources
pub mod Trino
pub mod Flink
pub mod PostDeployment
