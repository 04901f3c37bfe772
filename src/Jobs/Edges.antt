-- ===== src/Jobs/Edges.antt =====
-- app/jobs.py: the states of a job follow the arrows of the module's docstring.
use openleo.Prelude.{
  ℕ, leb, if_split, option_split, String, eq_iff, Bool, true, false, not, Option, none, some, List,
  [], ◌∷◌, ◌≡◌, refl, ap, arith,
}
use openleo.Jobs.{
  State, queued, running, done, failed, evicted, Job, Worker, waiting, holding, busy, stopped,
  JobQueue, Outcome, returned, job_cancelled, raised_value_error, raised_other, lookup, update,
  is_done, is_known, is_kind, count_active, init, submit, enqueue, new_job, report, evict,
  close_begin, close_end, get_pending, finish, dispatch, work, Response, Action, call_submit,
  call_report, call_evict, call_close, finish_close, run_worker, step, run,
}
use openleo.Jobs.Invariant.{IsValid, addresses, held, lookup-insert, elem-append}
use openleo.Jobs.Safety.{run-IsValid}

-- The arrows of the module's docstring; the second argument is the state one step later.
abbrev pub is_edge : Option State → Option State → Bool
is_edge none none = true
is_edge none (some queued) = true
is_edge (some queued) (some queued) = true
is_edge (some queued) (some running) = true
is_edge (some running) (some running) = true
is_edge (some running) (some done) = true
is_edge (some running) (some failed) = true
is_edge (some done) (some done) = true
is_edge (some done) (some evicted) = true
is_edge (some failed) (some failed) = true
is_edge (some failed) (some queued) = true
is_edge (some evicted) (some evicted) = true
is_edge (some evicted) (some queued) = true
is_edge _ _ = false

is_edge_same : (s : Option State) → is_edge s s ≡ true
is_edge_same none = refl
is_edge_same (some queued) = refl
is_edge_same (some running) = refl
is_edge_same (some done) = refl
is_edge_same (some failed) = refl
is_edge_same (some evicted) = refl

module _ {P : Type 0} where
  abbrev pub state_of : JobQueue P → String → Option State
  state_of q i = elim (lookup i q.jobs) [ none ↦ none | some a ↦ some (q.heap a).state ]

  submit-is_edge :
      (job_id : String → P → String) (q : JobQueue P) (kind : String) (payload : P) (i : String)
      → IsValid q
      → is_edge (state_of q i) (state_of (submit job_id q kind payload).0 i) ≡ true
  unfolding submit is_known
  submit-is_edge job_id q kind payload i v =
      let Q : JobQueue P × Response → Type 0 =
        λ r. is_edge (state_of q i) (state_of r.0 i) ≡ true in
      let same = is_edge_same (state_of q i) in
      let n = job_id kind payload in
      if_split Q (not (is_kind kind)) (λ _. same)
        (λ _.
          if_split Q q.closed (λ _. same)
            (λ _.
              if_split Q (is_known q n) (λ _. same)
                (λ k.
                  if_split Q (leb q.max_pending (count_active q.heap q.jobs)) (λ _. same)
                    (λ _.
                      option_split
                        (λ s. is_edge s (state_of (enqueue q (new_job n kind payload)) i) ≡ true)
                        (lookup i q.jobs)
                        (λ h. ground (arith, lookup-insert n i q.next q.jobs, eq_iff n i))
                        (λ a h. ground (
                          arith,
                          lookup-insert n i q.next q.jobs,
                          eq_iff n i,
                          v.registered i a h,
                        ))))))

  -- A write to one registered job follows an arrow, if the new state does.
  write-is_edge :
      (q : JobQueue P) (b : ℕ) (job : Job P) (i : String)
      → is_edge (some (q.heap b).state) (some job.state) ≡ true
      → is_edge (state_of q i) (state_of (record q { heap = update q.heap b job }) i) ≡ true
  write-is_edge q b job i e =
      option_split (λ s. is_edge s (state_of (record q { heap = update q.heap b job }) i) ≡ true)
        (lookup i q.jobs) (λ h. ground arith)
        (λ a h. ground (arith, is_edge_same (some (q.heap a).state)))

  evict-is_edge :
      (q : JobQueue P) (j i : String) → is_edge (state_of q i) (state_of (evict q j) i) ≡ true
  unfolding evict
  evict-is_edge q j i =
      let Q : JobQueue P → Type 0 = λ r. is_edge (state_of q i) (state_of r i) ≡ true in
      option_split Q (lookup j q.jobs) (λ _. is_edge_same (state_of q i))
        (λ a _.
          if_split Q (is_done (q.heap a).state) (λ d. write-is_edge q a _ i (ground arith))
            (λ _. is_edge_same (state_of q i)))

  report-is_edge :
      (q : JobQueue P) (phase i : String)
      → is_edge (state_of q i) (state_of (report q phase).0 i) ≡ true
  unfolding report
  report-is_edge q phase i =
      let Q : JobQueue P × Bool → Type 0 = λ r. is_edge (state_of q i) (state_of r.0 i) ≡ true in
      option_split Q q.current (λ _. is_edge_same (state_of q i))
        (λ a _.
          if_split Q q.cancel (λ _. is_edge_same (state_of q i))
            (λ _. write-is_edge q a _ i (is_edge_same (some (q.heap a).state))))

  work-is_edge :
      (w : Worker) (o : Outcome) (q : JobQueue P) (i : String)
      → q.worker ≡ w
      → IsValid q
      → is_edge (state_of q i) (state_of (dispatch w o q) i) ≡ true
  unfolding dispatch
  work-is_edge waiting o q i e v = pending_same q.pending
    where
      pending_same :
          (l : List (Option ℕ)) → is_edge (state_of q i) (state_of (get_pending l q) i) ≡ true
      pending_same [] = is_edge_same (state_of q i)
      pending_same (none ∷ l) = is_edge_same (state_of q i)
      pending_same (some a ∷ l) = is_edge_same (state_of q i)
  work-is_edge (holding b) o q i e v =
      let Q : JobQueue P → Type 0 = λ r. is_edge (state_of q i) (state_of r i) ≡ true in
      if_split Q q.closed (λ _. is_edge_same (state_of q i))
        (λ _. write-is_edge q b _ i (
          ground (
            arith,
            v.owned_queued b,
            ap held e,
            elem-append b (held q.worker) (addresses q.pending),
          )))
  work-is_edge (busy b) o q i e v = ends o
    where
      ends : (o : Outcome) → is_edge (state_of q i) (state_of (finish b o q) i) ≡ true
      ends (returned x) = write-is_edge q b _ i (ground (arith, v.busy_running b e))
      ends job_cancelled = write-is_edge q b _ i (ground (arith, v.busy_running b e))
      ends (raised_value_error x) = write-is_edge q b _ i (ground (arith, v.busy_running b e))
      ends raised_other = write-is_edge q b _ i (ground (arith, v.busy_running b e))
  work-is_edge stopped o q i e v = is_edge_same (state_of q i)

  close-is_edge :
      (q : JobQueue P) (i : String)
      → (is_edge (state_of q i) (state_of (close_begin q) i) ≡ true)
        × (is_edge (state_of q i) (state_of (close_end q) i) ≡ true)
  unfolding close_begin close_end
  close-is_edge q i =
      let Q : JobQueue P → Type 0 = λ r. is_edge (state_of q i) (state_of r i) ≡ true in
      let same = is_edge_same (state_of q i) in
      (if_split Q q.closed (λ _. same) (λ _. same), if_split Q q.close_put (λ _. same) (λ _. same))

  step-is_edge :
      (job_id : String → P → String) (q : JobQueue P) (a : Action P) (i : String)
      → IsValid q
      → is_edge (state_of q i) (state_of (step job_id q a) i) ≡ true
  unfolding step work
  step-is_edge job_id q (call_submit kind payload) i v = submit-is_edge job_id q kind payload i v
  step-is_edge job_id q (call_report phase) i v = report-is_edge q phase i
  step-is_edge job_id q (call_evict j) i v = evict-is_edge q j i
  step-is_edge job_id q call_close i v = (close-is_edge q i).0
  step-is_edge job_id q finish_close i v = (close-is_edge q i).1
  step-is_edge job_id q (run_worker o) i v = work-is_edge q.worker o q i refl v

  -- After every schedule from the empty queue the next step, whichever it is, takes the state of
  -- each id along an arrow of the docstring, or leaves it.
  pub run-is_edge :
      (job_id : String → P → String) (heap : ℕ → Job P) (l : List (Action P)) (a : Action P)
      (i : String)
      → let q = run job_id (init heap) l in
        is_edge (state_of q i) (state_of (step job_id q a) i) ≡ true
  run-is_edge job_id heap l a i =
      step-is_edge job_id (run job_id (init heap) l) a i (run-IsValid job_id heap l)
