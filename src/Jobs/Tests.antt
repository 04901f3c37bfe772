-- ===== src/Jobs/Tests.antt =====
-- app/jobs.py: the job queue on a few schedules.
use openleo.Prelude.{
  ℕ, ◌==◌, if◌then◌else◌, String, true, false, none, some, List, [], ◌∷◌, ◌≡◌, refl,
}
use openleo.Jobs.{
  running, done, Job, waiting, stopped, JobQueue, returned, raised_value_error, queue_closed,
  lookup, insert, count_active, init, new_job, is_known, is_kind, submit, status, result, kind,
  count, report, evict, close_begin, close_end, work, Action, call_submit, call_report, call_close,
  run_worker, step, run,
}
use openleo.Jobs.Safety.{one_running}
use openleo.Jobs.Edges.{state_of, is_edge, run-is_edge}
use openleo.Jobs.Progress.{serve, done_is_kept, close_stops, serves_head}

program : Unit {0}
unfolding lookup insert count_active init is_known submit status result kind count report evict
    close_begin close_end work step run
program = tt

abbrev sample_id : String → ℕ → String
sample_id kind payload = if payload == 0 then "a" else "b"

abbrev empty_heap : ℕ → Job ℕ
empty_heap _ = new_job "" "run" 0

abbrev first_runs : List (Action ℕ)
first_runs =
    call_submit "run" 0
    ∷ call_submit "sweep" 1
    ∷ run_worker (returned "d")
    ∷ run_worker (returned "d")
    ∷ call_report "half"
    ∷ []

abbrev first_done : List (Action ℕ)
first_done =
    call_submit "run" 0
    ∷ call_submit "sweep" 1
    ∷ run_worker (returned "d")
    ∷ run_worker (returned "d")
    ∷ run_worker (returned "d")
    ∷ []

abbrev second_fails : List (Action ℕ)
second_fails =
    run_worker (raised_value_error "bad")
    ∷ run_worker (raised_value_error "bad")
    ∷ run_worker (raised_value_error "bad")
    ∷ call_submit "run" 0
    ∷ call_close
    ∷ []

states :
    (state_of (run sample_id (init empty_heap) first_runs) "a" ≡ some running)
    × (status (run sample_id (init empty_heap) first_runs) "a"
        ≡ some ("a", running, some "half", none))
    × (kind (run sample_id (init empty_heap) first_runs) "b" ≡ some "sweep")
    × (count (run sample_id (init empty_heap) first_runs) ≡ 2)
unfolding program
states = (refl, refl, refl, refl)

one_running_example : ◌≡◌ {A = ℕ} 0 0 × ◌≡◌ {A = String} "a" "a"
unfolding program
one_running_example = one_running sample_id empty_heap first_runs "a" "a" 0 0 refl refl refl refl

run-is_edge_example :
    let q = run sample_id (init empty_heap) first_runs in
    is_edge (state_of q "a") (state_of (step sample_id q (run_worker (returned "d"))) "a") ≡ true
run-is_edge_example = run-is_edge sample_id empty_heap first_runs (run_worker (returned "d")) "a"

done_is_kept_example :
    result (run sample_id (run sample_id (init empty_heap) first_done) second_fails) "a"
    ≡ some ("run", some "d")
unfolding program
done_is_kept_example =
    done_is_kept sample_id empty_heap first_done second_fails "a" ("run", some "d") refl
      (refl, (refl, (refl, (refl, (refl, tt)))))

abbrev open_queue : JobQueue ℕ
open_queue = record {
  heap = empty_heap;
  next = 1;
  jobs = ("a", 0) ∷ [];
  pending = some 0 ∷ [];
  current = none;
  closed = false;
  cancel = false;
  max_pending = 32;
  worker = waiting;
  close_put = false;
}

close_stops_example :
    let s = serve (returned "d") (close_end (close_begin open_queue)) in
    (s.worker ≡ stopped)
    × ((job_id : String → ℕ → String) (kind : String) (payload : ℕ)
        → is_kind kind ≡ true
        → submit job_id s kind payload ≡ (s, queue_closed))
close_stops_example = close_stops open_queue (returned "d") refl

serves_head_example :
    let s = serve (returned "d") open_queue in
    (s.pending ≡ [])
    × (s.worker ≡ waiting)
    × (s.closed ≡ false)
    × (s.jobs ≡ ("a", 0) ∷ [])
    × (((s.heap 0).state ≡ done) × ((s.heap 0).path ≡ some "d") × ((s.heap 0).error ≡ none))
    × ((b : ℕ) → (0 == b) ≡ false → s.heap b ≡ new_job "" "run" 0)
serves_head_example = serves_head open_queue (returned "d") 0 [] refl refl refl
