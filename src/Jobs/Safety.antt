-- ===== src/Jobs/Safety.antt =====
-- app/jobs.py: what every schedule of the threads' steps keeps.
use openleo.Prelude.{ℕ, String, some, List, [], ◌∷◌, ◌≡◌, refl, arith}
use openleo.Jobs.{
  running, Job, JobQueue, lookup, count_active, init, Action, call_submit, call_report, call_evict,
  call_close, finish_close, run_worker, step, run,
}
use openleo.Jobs.Invariant.{IsValid}
use openleo.Jobs.Submit.{
  submit-IsValid, evict-IsValid, report-IsValid, close_begin-IsValid, close_end-IsValid,
}
use openleo.Jobs.Work.{work-IsValid}

module _ {P : Type 0} where
  pub init-IsValid : (heap : ℕ → Job P) → IsValid (init heap)
  unfolding init lookup count_active
  init-IsValid heap = record {
    registered = λ i a h. cc;
    owned_queued = λ a h. cc;
    owned_once = tt;
    busy_running = λ a h. cc;
    current_busy = λ a h. cc;
    running_busy = λ i a h r. cc;
    queued_owned = λ i a h r. cc;
    below = tt;
    capacity = omega arith;
    cancel_closed = refl;
  }

  pub step-IsValid :
      (job_id : String → P → String) (q : JobQueue P) (a : Action P)
      → IsValid q
      → IsValid (step job_id q a)
  unfolding step
  step-IsValid job_id q (call_submit kind payload) v = submit-IsValid job_id q kind payload v
  step-IsValid job_id q (call_report phase) v = report-IsValid q phase v
  step-IsValid job_id q (call_evict i) v = evict-IsValid q i v
  step-IsValid job_id q call_close v = close_begin-IsValid q v
  step-IsValid job_id q finish_close v = close_end-IsValid q v
  step-IsValid job_id q (run_worker o) v = work-IsValid o q v

  run_from-IsValid :
      (job_id : String → P → String) (q : JobQueue P) (l : List (Action P))
      → IsValid q
      → IsValid (run job_id q l)
  unfolding run
  run_from-IsValid job_id q [] v = v
  run_from-IsValid job_id q (a ∷ l) v =
      run_from-IsValid job_id (step job_id q a) l (step-IsValid job_id q a v)

  -- The invariant holds after every schedule from the empty queue.
  pub run-IsValid :
      (job_id : String → P → String) (heap : ℕ → Job P) (l : List (Action P))
      → IsValid (run job_id (init heap) l)
  run-IsValid job_id heap l = run_from-IsValid job_id (init heap) l (init-IsValid heap)

  -- After every schedule from the empty queue at most one registered job is running: two ids whose
  -- jobs are running have the same job.
  pub one_running :
      (job_id : String → P → String) (heap : ℕ → Job P) (l : List (Action P)) (i j : String)
      (a b : ℕ)
      → let q = run job_id (init heap) l in
        lookup i q.jobs ≡ some a
        → lookup j q.jobs ≡ some b
        → (q.heap a).state ≡ running
        → (q.heap b).state ≡ running
        → (a ≡ b) × (i ≡ j)
  one_running job_id heap l i j a b h k r s =
      let v = run-IsValid job_id heap l in
      ground (
        arith,
        v.running_busy i a h r,
        v.running_busy j b k s,
        v.registered i a h,
        v.registered j b k,
      )
