-- ===== src/Dispatch/JobQueue/Order.antt =====
-- Jobs run once each, in the order in which they were accepted.
use server_core.Base.{
  ◌≡◌, refl, sym, ap, ◌∙◌, Bool, true, false, Option, none, some, List, [], ◌∷◌, ◌++◌, append-nil,
  append_assoc,
}
use server_core.Dispatch.JobQueue.{
  post, run_batch, drain_once, Call, posts_job, drains, accepted_of, posted_by, run_calls,
}

module _ {J : Type 0} where
  run_batch-posted :
      (posts : J → List J) (batch jobs : List J)
      → run_batch posts batch jobs ≡ jobs ++ posted_by posts batch
  unfolding run_batch
  run_batch-posted posts [] jobs = sym (append-nil jobs)
  run_batch-posted posts (job ∷ batch) jobs =
      run_batch-posted posts batch (jobs ++ posts job)
      ∙ append_assoc jobs (posts job) (posted_by posts batch)

  post-accepted :
      (granted : Bool) (job : Option J) (jobs : List J)
      → (post granted job jobs).1 ≡ jobs ++ accepted_of granted job
  unfolding post
  post-accepted true none jobs = sym (append-nil jobs)
  post-accepted false none jobs = sym (append-nil jobs)
  post-accepted true (some job) jobs = refl
  post-accepted false (some job) jobs = sym (append-nil jobs)

  ordered :
      (posts : J → List J) (calls : List (Call J)) (jobs : List J)
      → let t = run_calls posts calls jobs in t.ran ++ t.queue ≡ jobs ++ t.accepted
  unfolding run_calls drain_once
  ordered posts [] jobs = sym (append-nil jobs)
  ordered posts (posts_job granted job ∷ calls) jobs =
      let t = run_calls posts calls (post granted job jobs).1 in
      ordered posts calls (post granted job jobs).1
      ∙ ap (λ q. q ++ t.accepted) (post-accepted granted job jobs)
      ∙ append_assoc jobs (accepted_of granted job) t.accepted
  ordered posts (drains ∷ calls) jobs =
      let t = run_calls posts calls (run_batch posts jobs []) in
      append_assoc jobs t.ran t.queue
      ∙ ap (λ q. jobs ++ q)
          (ordered posts calls (run_batch posts jobs [])
            ∙ ap (λ q. q ++ t.accepted) (run_batch-posted posts jobs []))

  -- Whatever is posted and drained, by the jobs too, those that ran and those that still wait are, in
  -- order, those that waited before and those that were accepted since; a drain runs what waited when
  -- it began and leaves what its jobs posted to the next one.
  pub run_calls-ordered :
      (posts : J → List J) (calls : List (Call J)) (jobs : List J)
      → let t = run_calls posts calls jobs in
        (t.ran ++ t.queue ≡ jobs ++ t.accepted)
        × ((run_calls posts (drains ∷ []) jobs).ran ≡ jobs)
        × ((run_calls posts (drains ∷ []) jobs).queue ≡ posted_by posts jobs)
  unfolding run_calls drain_once
  run_calls-ordered posts calls jobs =
      (ordered posts calls jobs, append-nil jobs, run_batch-posted posts jobs [])
