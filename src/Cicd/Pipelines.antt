-- ===== src/Cicd/Pipelines.antt =====
-- The page of a pipeline, `PipelinesIndex` of frontend/src/pages/cicd/PipelinesIndex.tsx: how the jobs
-- of a run are laid out, what can be done with a job, and the poll of a run. Times are milliseconds.
pub mod Laws
use mrboard.Shared.{
  ℕ, zero, suc, ◌+◌, ◌-◌, ◌/◌, ◌++◌, Bool, true, false, not, ◌&&◌, ◌||◌, Option, none, some, List,
  [], ◌∷◌, map, if◌then◌else◌, ◌==◌, nat_eq, leb, ltb, Text, text_eq, lit, is_truthy, length,
}
use mrboard.Shared.Numbers.{decimal}

-- The types of its actions, in their order.
pub record PipelineJob : Type 0 where
  pub id : ℕ
  pub name : Text
  pub status : Text
  pub start_time : ℕ
  pub end_time : ℕ
  pub actions : List Text

pub record PipelineStage : Type 0 where
  pub status : Text
  pub jobs : List PipelineJob

pub record PipelineRun : Type 0 where
  pub pipeline_run_id : Text
  pub status : Text
  pub create_time : ℕ
  pub stages : List PipelineStage
  pub sources : ℕ

pub record JobBlock : Type 0 where
  pub stage_index : ℕ
  pub job_index : ℕ
  pub id : ℕ
  pub name : Text
  pub status : Text
  pub duration : Text
  pub action_type : Text
  pub stage_status : Text

pub record Blocks : Type 0 where
  pub rows : List (List JobBlock)
  pub is_linear : Bool

abbrev first_action : List Text → Text
first_action [] = []
first_action (a ∷ actions) = a

-- `formatDuration(end - start)`: a half rounds up, so that -0.5 rounds to 0.
unfoldable format_duration : ℕ → ℕ → Text
format_duration end start =
    if leb start end
    then decimal ((end - start + 500) / 1000) ++ lit "s"
    else (if leb (start - end) 500
        then lit "0s"
        else lit "-" ++ (decimal ((start - end + 499) / 1000) ++ lit "s"))

abbrev block_of : ℕ → ℕ → Text → PipelineJob → JobBlock
block_of si ji stage_status job = record {
  stage_index = si;
  job_index = ji;
  id = job.id;
  name = job.name;
  status = job.status;
  duration = format_duration job.end_time job.start_time;
  action_type = first_action job.actions;
  stage_status = stage_status;
}

-- `stage.stageInfo.jobs.map((job, ji) => ...)`.
job_blocks : ℕ → ℕ → Text → List PipelineJob → List JobBlock
job_blocks si ji stage_status [] = []
job_blocks si ji stage_status (job ∷ jobs) =
    block_of si ji stage_status job ∷ job_blocks si (suc ji) stage_status jobs

stage_rows : ℕ → List PipelineStage → List (List JobBlock)
stage_rows si [] = []
stage_rows si (stage ∷ stages) =
    job_blocks si 0 stage.status stage.jobs ∷ stage_rows (suc si) stages

abbrev cons_block : Option JobBlock → Option (List JobBlock) → Option (List JobBlock)
cons_block (some b) (some bs) = some (b ∷ bs)
cons_block _ _ = none

abbrev first_block : ℕ → PipelineStage → Option JobBlock
first_block si stage = elim stage.jobs [
  | [] ↦ none
  | ◌∷◌ job jobs ↦ some (block_of si 0 stage.status job)
]

-- The single row: the first job of each stage. A stage without jobs makes it throw, which is none.
linear_row : ℕ → List PipelineStage → Option (List JobBlock)
linear_row si [] = some []
linear_row si (stage ∷ stages) = cons_block (first_block si stage) (linear_row (suc si) stages)

-- `sources === 1 && stagesLen >= 2 && jobs0Len === 1`.
abbrev is_line : PipelineRun → Bool
is_line run =
    nat_eq.same run.sources 1
    && (leb 2 (length run.stages)
        && elim run.stages [ [] ↦ false | ◌∷◌ stage stages ↦ length stage.jobs == 1 ])

abbrev in_line : Option (List JobBlock) → Option Blocks
in_line none = none
in_line (some row) = some (record { rows = row ∷ []; is_linear = true })

pub get_job_blocks : PipelineRun → Option Blocks
get_job_blocks run =
    if is_line run
    then in_line (linear_row 0 run.stages)
    else some (record { rows = stage_rows 0 run.stages; is_linear = false })

-- What the buttons of a job do.
pub data JobAction : Type 0 where
  pass refuse retry stop_job skip : JobAction

-- `renderJobActions`.
unfoldable job_actions : JobBlock → List JobAction
job_actions b =
    if b.action_type == lit "PassPipelineValidate" || b.action_type == lit "RefusePipelineValidate"
    then pass ∷ refuse ∷ []
    else if b.action_type == lit "RetryPipelineJobRun"
    then retry ∷ []
    else if b.action_type == lit "StopPipelineJobRun"
    then stop_job ∷ []
    else if b.action_type == lit "SkipPipelineJobRun"
    then skip ∷ []
    else if b.status == lit "FAIL"
    then retry ∷ []
    else []

-- `postStatus`: the number that the server stores for a status.
unfoldable state_of : Text → ℕ
state_of status =
    if status == lit "SUCCESS"
    then 1
    else if status == lit "RUNNING"
    then 2
    else if status == lit "FAIL"
    then 3
    else 1

-- The run that is shown, and the interval that asks for it each 3 s; `posted` are the statuses that
-- were sent to the server.
pub record Watch : Type 0 where
  pub current_run : Option PipelineRun
  pub polling : Bool
  pub posted : List ℕ

unfoldable is_under_way : Text → Bool
is_under_way status = status == lit "RUNNING" || status == lit "WAITING"

-- The effect on the id and the status of the run.
abbrev watch_effect : Option PipelineRun → Watch → Watch
watch_effect none s = record s { polling = false }
watch_effect (some run) s =
    if is_under_way run.status
    then record s { polling = true }
    else record s { polling = false; posted = s.posted ++ state_of run.status ∷ [] }

abbrev same_run : Option PipelineRun → PipelineRun → Bool
same_run none run = false
same_run (some r) run = r.pipeline_run_id == run.pipeline_run_id && r.status == run.status

-- `fetchRun`, answered by a run, or by none where it fails; the effect runs where the id or the
-- status changed.
run_arrived : Option PipelineRun → Watch → Watch
run_arrived none s = s
run_arrived (some run) s =
    let t = record s { current_run = some run } in
    if same_run s.current_run run then t else watch_effect (some run) t

-- The interval's answer, with what its `then` does.
poll_answered : Option PipelineRun → Watch → Watch
poll_answered none s = s
poll_answered (some run) s =
    let t = run_arrived (some run) s in
    if is_under_way run.status
    then t
    else record t { polling = false; posted = t.posted ++ state_of run.status ∷ [] }
