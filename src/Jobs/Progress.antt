-- ===== src/Jobs/Progress.antt =====
-- app/jobs.py: a result that was produced stays; the worker serves the queue in order and stops
-- after `close`.
use openleo.Prelude.{
  ℕ, ◌==◌, leb, if◌then◌else◌, Option-cases, if_split, option_split, String, str_eq, eq_iff, Bool,
  true, false, not, Option, none, some, List, [], ◌∷◌, ◌++◌, ◌≡◌, refl, ap, subst, ◌∙◌, sym, inl,
  inr, arith, All,
}
use openleo.Jobs.{
  running, done, failed, Job, Worker, waiting, holding, busy, stopped, JobQueue, Outcome, returned,
  job_cancelled, raised_value_error, raised_other, unexpected_error, cancelled_error, lookup,
  update, is_done, is_known, is_kind, count_active, init, submit, report, evict, result,
  close_begin, close_end, get_pending, settle, finish, dispatch, work, Response, queue_closed,
  Action, call_submit, call_report, call_evict, call_close, finish_close, run_worker, step, run,
}
use openleo.Jobs.Invariant.{IsValid, addresses, held, lookup-insert, elem-append}
use openleo.Jobs.Safety.{run-IsValid, step-IsValid}

module _ {P : Type 0} where
  abbrev pub evicts : String → Action P → Bool
  evicts i (call_evict j) = str_eq j i
  evicts i _ = false

  -- No step of the schedule evicts the id.
  abbrev pub NoEvict : String → List (Action P) → Type 0
  NoEvict i l = All (λ a. evicts i a ≡ false) l

  -- The job after `run_fn` did what the outcome says: done with the returned directory, or failed
  -- with the error of what was raised and no directory.
  abbrev pub IsSettled : Outcome → Job P → Type 0
  IsSettled (returned path) j = (j.state ≡ done) × (j.path ≡ some path) × (j.error ≡ none)
  IsSettled job_cancelled j =
      (j.state ≡ failed) × (j.path ≡ none) × (j.error ≡ some cancelled_error)
  IsSettled (raised_value_error text) j =
      (j.state ≡ failed) × (j.path ≡ none) × (j.error ≡ some text)
  IsSettled raised_other j =
      (j.state ≡ failed) × (j.path ≡ none) × (j.error ≡ some unexpected_error)

  settle-IsSettled : (o : Outcome) (j : Job P) → IsSettled o (settle o j)
  unfolding settle
  settle-IsSettled (returned path) j = (refl, refl, refl)
  settle-IsSettled job_cancelled j = (refl, refl, refl)
  settle-IsSettled (raised_value_error text) j = (refl, refl, refl)
  settle-IsSettled raised_other j = (refl, refl, refl)

  update-same : (heap : ℕ → Job P) (a : ℕ) (j : Job P) → update heap a j a ≡ j
  update-same heap a j = ground arith

  update-IsSettled :
      (heap : ℕ → Job P) (a : ℕ) (o : Outcome) → IsSettled o (update heap a (settle o (heap a)) a)
  update-IsSettled heap a o =
      subst (IsSettled o) (sym (update-same heap a (settle o (heap a))))
        (settle-IsSettled o (heap a))

  module _ (q : JobQueue P) (v : IsValid q) (i : String) (r : String × Option String)
      (got : result q i ≡ some r) where
    submit-result :
        (job_id : String → P → String) (kind : String) (payload : P)
        → result (submit job_id q kind payload).0 i ≡ some r
    unfolding submit result is_known
    submit-result job_id kind payload =
        let n = job_id kind payload in
        let Q : JobQueue P × Response → Type 0 = λ s. result s.0 i ≡ some r in
        if_split Q (not (is_kind kind)) (λ _. got)
          (λ _.
            if_split Q q.closed (λ _. got)
              (λ _.
                if_split Q (is_known q n) (λ _. got)
                  (λ k.
                    if_split Q (leb q.max_pending (count_active q.heap q.jobs)) (λ _. got)
                      (λ _. elim (Option-cases (lookup i q.jobs)) [
                        | inl e ↦ ground arith
                        | inr (a, e) ↦
                            ground (
                              arith,
                              lookup-insert n i q.next q.jobs,
                              eq_iff n i,
                              v.registered i a e,
                            )
                      ]))))

    -- A write to a job that is not done, or that keeps state, kind and path, keeps the result.
    write-result :
        (b : ℕ) (job : Job P)
        → ((lookup i q.jobs ≡ some b)
            → (q.heap b).state ≡ done
            → (job.state ≡ done) × (job.kind ≡ (q.heap b).kind) × (job.path ≡ (q.heap b).path))
        → result (record q { heap = update q.heap b job }) i ≡ some r
    unfolding result
    write-result b job keep = elim (Option-cases (lookup i q.jobs)) [
      | inl e ↦ ground arith
      | inr (a, e) ↦ ground arith
    ]

    evict-result : (j : String) → str_eq j i ≡ false → result (evict q j) i ≡ some r
    unfolding evict
    evict-result j ne =
        let Q : JobQueue P → Type 0 = λ s. result s i ≡ some r in
        option_split Q (lookup j q.jobs) (λ _. got)
          (λ a h.
            if_split Q (is_done (q.heap a).state)
              (λ _.
                write-result a _
                  (λ k d. ground (arith, v.registered i a k, v.registered j a h, eq_iff j i)))
              (λ _. got))

    report-result : (phase : String) → result (report q phase).0 i ≡ some r
    unfolding report
    report-result phase =
        let Q : JobQueue P × Bool → Type 0 = λ s. result s.0 i ≡ some r in
        option_split Q q.current (λ _. got)
          (λ a _. if_split Q q.cancel (λ _. got) (λ _. write-result a _ (λ k d. (d, refl, refl))))

    work-result : (w : Worker) (o : Outcome) → q.worker ≡ w → result (dispatch w o q) i ≡ some r
    unfolding dispatch result
    work-result waiting o e = taken q.pending
      where
        taken : (l : List (Option ℕ)) → result (get_pending l q) i ≡ some r
        taken [] = got
        taken (none ∷ l) = got
        taken (some a ∷ l) = got
    work-result (holding b) o e =
        let Q : JobQueue P → Type 0 = λ s. result s i ≡ some r in
        if_split Q q.closed (λ _. got)
          (λ _. write-result b _ (λ k d. ground (
            arith,
            v.owned_queued b,
            ap held e,
            elem-append b (held q.worker) (addresses q.pending),
          )))
    work-result (busy b) o e = write-result b _ (λ k d. ground (arith, v.busy_running b e))
    work-result stopped o e = got

    step-result :
        (job_id : String → P → String) (a : Action P)
        → evicts i a ≡ false
        → result (step job_id q a) i ≡ some r
    unfolding step work close_begin close_end result
    step-result job_id (call_submit kind payload) ne = submit-result job_id kind payload
    step-result job_id (call_report phase) ne = report-result phase
    step-result job_id (call_evict j) ne = evict-result j ne
    step-result job_id call_close ne =
        if_split (λ (s : JobQueue P). result s i ≡ some r) q.closed (λ _. got) (λ _. got)
    step-result job_id finish_close ne =
        if_split (λ (s : JobQueue P). result s i ≡ some r) q.close_put (λ _. got) (λ _. got)
    step-result job_id (run_worker o) ne = work-result q.worker o refl

  run-result :
      (job_id : String → P → String) (q : JobQueue P) (l : List (Action P)) (i : String)
      (r : String × Option String)
      → IsValid q
      → result q i ≡ some r
      → NoEvict i l
      → result (run job_id q l) i ≡ some r
  unfolding run
  run-result job_id q [] i r v got ne = got
  run-result job_id q (a ∷ l) i r v got ne =
      run-result job_id (step job_id q a) l i r (step-IsValid job_id q a v)
        (step-result q v i r got job_id a ne.0) ne.1

  -- From the empty queue: once `result` gives a directory for an id, it gives the same one after
  -- every further schedule in which that id is not evicted, whatever is submitted, fails or closes.
  pub done_is_kept :
      (job_id : String → P → String) (heap : ℕ → Job P) (l m : List (Action P)) (i : String)
      (r : String × Option String)
      → result (run job_id (init heap) l) i ≡ some r
      → NoEvict i m
      → result (run job_id (run job_id (init heap) l) m) i ≡ some r
  done_is_kept job_id heap l m i r got ne =
      run-result job_id (run job_id (init heap) l) m i r (run-IsValid job_id heap l) got ne

  -- Three steps of the worker, the outcome of `run_fn` being `o` in each.
  abbrev pub serve : Outcome → JobQueue P → JobQueue P
  serve o q = work o (work o (work o q))

  closed-submit :
      (s : JobQueue P) (job_id : String → P → String) (kind : String) (payload : P)
      → s.closed ≡ true
      → is_kind kind ≡ true
      → submit job_id s kind payload ≡ (s, queue_closed)
  unfolding submit
  closed-submit s job_id kind payload c k = ground arith

  abbrev IsStopped : JobQueue P → Type 0
  IsStopped s = (s.worker ≡ stopped) × (s.closed ≡ true)

  serve-IsStopped :
      (o : Outcome) (w : Worker) (l : List (Option ℕ)) (q : JobQueue P)
      → IsStopped (
          serve o (record q {
            pending = l ++ none ∷ [];
            worker = w;
            closed = true;
            cancel = true;
            close_put = false;
          }))
  unfolding work
  serve-IsStopped o stopped l q = (refl, refl)
  serve-IsStopped o (holding a) l q = (refl, refl)
  serve-IsStopped o waiting [] q = (refl, refl)
  serve-IsStopped o waiting (none ∷ l) q = (refl, refl)
  serve-IsStopped o waiting (some a ∷ l) q = (refl, refl)
  serve-IsStopped o (busy b) [] q = (refl, refl)
  serve-IsStopped o (busy b) (none ∷ l) q = (refl, refl)
  serve-IsStopped o (busy b) (some a ∷ l) q = (refl, refl)

  close_eq :
      (q : JobQueue P)
      → q.closed ≡ false
      → close_end (close_begin q) ≡ record q {
        pending = q.pending ++ none ∷ [];
        closed = true;
        cancel = true;
        close_put = false;
      }
  unfolding close_begin close_end
  close_eq q c =
      ap close_end
        (λ i. if c i then q else record q { closed = true; cancel = true; close_put = true })

  -- `close` on an open queue, then three steps of the worker: it has stopped, wherever it stood, and
  -- the queue refuses every submission of a known kind.
  pub close_stops :
      (q : JobQueue P) (o : Outcome)
      → q.closed ≡ false
      → let s = serve o (close_end (close_begin q)) in
        (s.worker ≡ stopped)
        × ((job_id : String → P → String) (kind : String) (payload : P)
            → is_kind kind ≡ true
            → submit job_id s kind payload ≡ (s, queue_closed))
  close_stops q o c =
      let ends : IsStopped (serve o (close_end (close_begin q))) =
        subst (λ s. IsStopped (serve o s)) (sym (close_eq q c))
          (serve-IsStopped o q.worker q.pending q) in
      (ends.0, λ job_id kind payload k. closed-submit _ job_id kind payload ends.1 k)

  serve_eq :
      (q : JobQueue P) (o : Outcome) (a : ℕ) (rest : List (Option ℕ))
      → q.worker ≡ waiting
      → q.closed ≡ false
      → q.pending ≡ some a ∷ rest
      → serve o q
        ≡ finish a o (record q {
          heap =
              update q.heap a (record (q.heap a) { state = running; phase = none; error = none });
          pending = rest;
          current = some a;
          worker = busy a;
        })
  unfolding work
  serve_eq q o a rest w c p =
      ap (λ s. work o (work o s)) (λ i. dispatch (w i) o q)
      ∙ ap (λ s. work o (work o s)) (λ i. get_pending (p i) q)
      ∙ ap (work o) (λ i. if c i then record q { pending = rest; worker = stopped } else record q {
        heap = update q.heap a (record (q.heap a) { state = running; phase = none; error = none });
        pending = rest;
        current = some a;
        worker = busy a;
      })

  -- In an open queue whose worker waits, three steps of the worker take the job at the head of the
  -- queue, run it and settle it by the outcome of `run_fn`: done with the returned directory and no
  -- error, or failed with the error of what was raised and no directory. The rest of the queue, the dictionary and every other job are unchanged.
  pub serves_head :
      (q : JobQueue P) (o : Outcome) (a : ℕ) (rest : List (Option ℕ))
      → q.worker ≡ waiting
      → q.closed ≡ false
      → q.pending ≡ some a ∷ rest
      → let s = serve o q in
        (s.pending ≡ rest)
        × (s.worker ≡ waiting)
        × (s.closed ≡ false)
        × (s.jobs ≡ q.jobs)
        × IsSettled o (s.heap a)
        × ((b : ℕ) → (a == b) ≡ false → s.heap b ≡ q.heap b)
  unfolding finish
  serves_head q o a rest w c p = rw (serve_eq q o a rest w c p) (
    refl,
    refl,
    c,
    refl,
    update-IsSettled
        (update q.heap a (record (q.heap a) { state = running; phase = none; error = none })) a o,
    λ b ne. ground arith,
  )
