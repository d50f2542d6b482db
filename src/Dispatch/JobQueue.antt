-- ===== src/Dispatch/JobQueue.antt =====
-- src/Core/JobQueue.cpp. What a job does to the queue while it runs is the list of jobs that it posts; a
-- job that throws ends the process and is not modelled. `none` is an empty job.
pub mod Order
use server_core.Base.{ℕ, Bool, true, false, Option, none, some, List, [], ◌∷◌, ◌++◌, length}
use server_core.Core.Error.{ErrorCode, Status, allocation_failure}

module _ {J : Type 0} where
  unfoldable pub post : Bool → Option J → List J → Status × List J
  post granted none jobs = (ErrorCode.invalid_argument, jobs)
  post true (some job) jobs = (ErrorCode.ok, jobs ++ job ∷ [])
  post false (some job) jobs = (allocation_failure, jobs)

  -- The loop over the batch: each job posts behind what the queue holds by then.
  unfoldable pub run_batch : (J → List J) → List J → List J → List J
  run_batch posts [] jobs = jobs
  run_batch posts (job ∷ batch) jobs = run_batch posts batch (jobs ++ posts job)

  -- The number of jobs that ran, and the queue.
  unfoldable pub drain_once : (J → List J) → List J → ℕ × List J
  unfolding run_batch
  drain_once posts jobs = (length jobs, run_batch posts jobs [])

  abbrev pub pending_count : List J → ℕ
  pending_count jobs = length jobs

pub data Call (J : Type 0) : Type 0 where
  posts_job : (granted : Bool) (job : Option J) → Call J
  drains : Call J

-- What calls leave: the jobs that ran, those that were accepted, both in order, and the queue.
pub record Trace (J : Type 0) : Type 0 where
  pub ran : List J
  pub accepted : List J
  pub queue : List J

module _ {J : Type 0} where
  abbrev pub accepted_of : Bool → Option J → List J
  accepted_of true (some job) = job ∷ []
  accepted_of _ _ = []

  -- What the jobs of a batch post, one after another.
  abbrev pub posted_by : (J → List J) → List J → List J
  posted_by posts [] = []
  posted_by posts (job ∷ batch) = posts job ++ posted_by posts batch

  abbrev pub after : List J → List J → Trace J → Trace J
  after ran accepted t = record t { ran = ran ++ t.ran; accepted = accepted ++ t.accepted }

  unfoldable pub run_calls : (J → List J) → List (Call J) → List J → Trace J
  unfolding post drain_once
  run_calls posts [] jobs = record { ran = []; accepted = []; queue = jobs }
  run_calls posts (posts_job granted job ∷ calls) jobs =
      after [] (accepted_of granted job) (run_calls posts calls (post granted job jobs).1)
  run_calls posts (drains ∷ calls) jobs =
      after jobs (posted_by posts jobs) (run_calls posts calls (drain_once posts jobs).1)
