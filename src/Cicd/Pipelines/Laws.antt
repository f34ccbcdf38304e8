-- ===== src/Cicd/Pipelines/Laws.antt =====
-- Which jobs a run shows, and the end of its poll (frontend/src/pages/cicd/PipelinesIndex.tsx).
use mrboard.Shared.{
  ◌≡◌, ◌∙◌, refl, ap, ℕ, suc, Bool, true, false, Option, none, some, List, [], ◌∷◌, ◌++◌,
  if◌then◌else◌, Text, text_eq, append-nil, List-cases, inl, inr, nat_eq,
}
use mrboard.Cicd.Pipelines.{
  PipelineJob, PipelineStage, PipelineRun, JobBlock, Blocks, job_blocks, stage_rows, linear_row,
  get_job_blocks, cons_block, first_block, is_line, in_line, Watch, run_arrived, poll_answered,
  is_under_way, same_run, state_of,
}

-- The jobs of the stages, by their numbers.
abbrev job_ids : List PipelineJob → List ℕ
job_ids [] = []
job_ids (j ∷ jobs) = j.id ∷ job_ids jobs

abbrev all_ids : List PipelineStage → List ℕ
all_ids [] = []
all_ids (s ∷ stages) = job_ids s.jobs ++ all_ids stages

abbrev first_ids : List PipelineStage → List ℕ
first_ids [] = []
first_ids (s ∷ stages) = elim s.jobs [
  | [] ↦ first_ids stages
  | ◌∷◌ j jobs ↦ j.id ∷ first_ids stages
]

abbrev row_ids : List JobBlock → List ℕ
row_ids [] = []
row_ids (b ∷ row) = b.id ∷ row_ids row

abbrev block_ids : List (List JobBlock) → List ℕ
block_ids [] = []
block_ids (row ∷ rows) = row_ids row ++ block_ids rows

ids-job_blocks :
    (si ji : ℕ) (status : Text) (jobs : List PipelineJob)
    → row_ids (job_blocks si ji status jobs) ≡ job_ids jobs
unfolding job_blocks
ids-job_blocks si ji status [] = refl
ids-job_blocks si ji status (j ∷ jobs) = ap (λ l. j.id ∷ l) (ids-job_blocks si (suc ji) status jobs)

ids-stage_rows :
    (si : ℕ) (stages : List PipelineStage) → block_ids (stage_rows si stages) ≡ all_ids stages
unfolding stage_rows
ids-stage_rows si [] = refl
ids-stage_rows si (s ∷ stages) =
    ap (λ l. l ++ block_ids (stage_rows (suc si) stages)) (ids-job_blocks si 0 s.status s.jobs)
    ∙ ap (λ l. job_ids s.jobs ++ l) (ids-stage_rows (suc si) stages)

-- Every stage has a job.
abbrev all_have_jobs : List PipelineStage → Bool
all_have_jobs [] = true
all_have_jobs (s ∷ stages) = elim s.jobs [ [] ↦ false | ◌∷◌ j jobs ↦ all_have_jobs stages ]

-- The row of a line: it is there if each stage has a job, and shows the first of each.
abbrev LineOf : List PipelineStage → Option (List JobBlock) → Type 0
LineOf stages none = all_have_jobs stages ≡ false
LineOf stages (some row) = (all_have_jobs stages ≡ true) × (row_ids row ≡ first_ids stages)

cons_block-LineOf :
    (s : PipelineStage) (stages : List PipelineStage) (si : ℕ) (o : Option (List JobBlock))
    → LineOf stages o
    → LineOf (s ∷ stages) (cons_block (first_block si s) o)
cons_block-LineOf s stages si none h = elim (List-cases s.jobs) [
  | inl e ↦ rw (e, first_block, all_have_jobs) refl
  | inr (j, jobs, e) ↦ rw (e, first_block, all_have_jobs) h
]
cons_block-LineOf s stages si (some row) (h, k) = elim (List-cases s.jobs) [
  | inl e ↦ rw (e, first_block, all_have_jobs) refl
  | inr (j, jobs, e) ↦ rw (e, first_block, all_have_jobs, first_ids) (h, ap (λ l. j.id ∷ l) k)
]

linear_row_lem : (si : ℕ) (stages : List PipelineStage) → LineOf stages (linear_row si stages)
unfolding linear_row
linear_row_lem si [] = (refl, refl)
linear_row_lem si (s ∷ stages) =
    cons_block-LineOf s stages si (linear_row (suc si) stages) (linear_row_lem (suc si) stages)

-- What is drawn of a run. As a line: the first job of each stage; it throws if a stage has none.
-- Otherwise: all jobs.
abbrev pub Drawn : PipelineRun → Option Blocks → Type 0
Drawn run none = (is_line run ≡ true) × (all_have_jobs run.stages ≡ false)
Drawn run (some b) =
    (b.is_linear ≡ is_line run)
    × (block_ids b.rows ≡ (if is_line run then first_ids run.stages else all_ids run.stages))

in_line-Drawn :
    (run : PipelineRun) (o : Option (List JobBlock))
    → is_line run ≡ true
    → LineOf run.stages o
    → Drawn run (in_line o)
in_line-Drawn run none e h = (e, h)
in_line-Drawn run (some row) e (h, k) = rw e (refl, append-nil (row_ids row) ∙ k)

-- The blocks of a run are its jobs, in their order, unless the run is drawn as a line, as it is with
-- one source, two stages or more and one job in the first stage: a line shows the first job of each
-- stage and no other, and a stage without jobs makes the page throw.
pub get_job_blocks_lem : (run : PipelineRun) → Drawn run (get_job_blocks run)
unfolding get_job_blocks
get_job_blocks_lem run = drawn (is_line run) refl
  where
    drawn :
        (b : Bool)
        → is_line run ≡ b
        → Drawn run (
            if b
            then in_line (linear_row 0 run.stages)
            else some (record { rows = stage_rows 0 run.stages; is_linear = false }))
    drawn true e = in_line-Drawn run (linear_row 0 run.stages) e (linear_row_lem 0 run.stages)
    drawn false e = rw e (refl, ids-stage_rows 0 run.stages)

-- The poll's answer that shows that the run is over, where it was under way, ends the poll and tells
-- the server the state of the run, which the effect on the status does once more.
poll_answered_lem :
    (run : PipelineRun) (s : Watch)
    → is_under_way run.status ≡ false
    → same_run s.current_run run ≡ false
    → let t = poll_answered (some run) s in
      (t.polling ≡ false)
      × ((t.current_run ≡ some run)
          × (t.posted ≡ (s.posted ++ state_of run.status ∷ []) ++ state_of run.status ∷ []))
unfolding poll_answered run_arrived
poll_answered_lem run s h k = rw (h, k) (refl, (refl, refl))
