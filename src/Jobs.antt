-- ===== src/Jobs.antt =====
-- app/jobs.py: the job queue of the local app. The lock makes each method body one atomic step;
-- the worker thread's loop is cut into the steps between two of its lock sections.
mod Tests
pub mod Invariant
pub mod Submit
pub mod Work
pub mod Safety
pub mod Edges
pub mod Progress
use openleo.Prelude.{
  ℕ, ◌+◌, ◌==◌, leb, if◌then◌else◌, String, str_eq, Bool, true, false, not, ◌||◌, Option, none,
  some, List, [], ◌∷◌, ◌++◌, length,
}

pub data State : Type 0 where
  queued running done failed evicted : State

pub record Job (P : Type 0) : Type 0 where
  pub id : String
  pub kind : String
  pub payload : Option P
  pub state : State
  pub phase : Option String
  pub error : Option String
  pub path : Option String

-- Where the worker thread stands: before `get`, between `get` and the first lock section, inside
-- `run_fn`, or after its return.
pub data Worker : Type 0 where
  waiting : Worker
  holding : ℕ → Worker
  busy : ℕ → Worker
  stopped : Worker

-- The dictionary, the queue and `current` share job objects, so these stand in a heap.
pub record JobQueue (P : Type 0) : Type 0 where
  pub heap : ℕ → Job P
  pub next : ℕ
  pub jobs : List (String × ℕ)
  pub pending : List (Option ℕ)
  pub current : Option ℕ
  pub closed : Bool
  pub cancel : Bool
  pub max_pending : ℕ
  pub worker : Worker
  pub close_put : Bool  -- a `close` call has left its lock section and not yet put `None`

pub data Response : Type 0 where
  ok : String → Response
  value_error queue_closed queue_full : Response

-- How `run_fn` ends.
pub data Outcome : Type 0 where
  returned : String → Outcome
  job_cancelled : Outcome
  raised_value_error : String → Outcome
  raised_other : Outcome

abbrev pub default_max_pending : ℕ
default_max_pending = 32

abbrev pub unexpected_error : String
unexpected_error = "The job failed unexpectedly; the server log names the error type."

abbrev pub cancelled_error : String
cancelled_error = "The job was cancelled: the server is shutting down."

abbrev pub is_kind : String → Bool
is_kind kind = str_eq kind "run" || str_eq kind "sweep"

-- `job.state not in ("failed", "evicted")`
abbrev pub is_kept : State → Bool
is_kept failed = false
is_kept evicted = false
is_kept _ = true

-- `j.state in ("queued", "running")`
abbrev pub is_active : State → Bool
is_active queued = true
is_active running = true
is_active _ = false

abbrev pub is_done : State → Bool
is_done done = true
is_done _ = false

unfoldable pub lookup : String → List (String × ℕ) → Option ℕ
lookup k [] = none
lookup k ((j, a) ∷ m) = if str_eq j k then some a else lookup k m

-- Assignment to a key of a dict keeps the key's place.
unfoldable pub insert : String → ℕ → List (String × ℕ) → List (String × ℕ)
insert k a [] = (k, a) ∷ []
insert k a ((j, b) ∷ m) = if str_eq j k then (j, a) ∷ m else (j, b) ∷ insert k a m

module _ {P : Type 0} where
  abbrev pub update : (ℕ → Job P) → ℕ → Job P → ℕ → Job P
  update h a j b = if a == b then j else h b

  unfoldable pub count_active : (ℕ → Job P) → List (String × ℕ) → ℕ
  count_active h [] = 0
  count_active h ((_, a) ∷ m) = (if is_active (h a).state then 1 else 0) + count_active h m

  unfoldable pub init : (ℕ → Job P) → JobQueue P
  init heap = record {
    heap = heap;
    next = 0;
    jobs = [];
    pending = [];
    current = none;
    closed = false;
    cancel = false;
    max_pending = default_max_pending;
    worker = waiting;
    close_put = false;
  }

  abbrev pub new_job : String → String → P → Job P
  new_job identifier kind payload = record {
    id = identifier;
    kind = kind;
    payload = some payload;
    state = queued;
    phase = none;
    error = none;
    path = none;
  }

  -- `job is not None and job.state not in ("failed", "evicted")`
  unfoldable pub is_known : JobQueue P → String → Bool
  is_known q identifier = elim (lookup identifier q.jobs) [
    | none ↦ false
    | some a ↦ is_kept (q.heap a).state
  ]

  abbrev pub enqueue : JobQueue P → Job P → JobQueue P
  enqueue q job = record q {
    heap = update q.heap q.next job;
    next = q.next + 1;
    jobs = insert job.id q.next q.jobs;
    pending = q.pending ++ some q.next ∷ [];
  }

  -- `job_id` is the hash that the caller's JSON library and hashlib give.
  unfoldable pub submit : (String → P → String) → JobQueue P → String → P → JobQueue P × Response
  submit job_id q kind payload =
      if not (is_kind kind)
      then (q, value_error)
      else if q.closed
      then (q, queue_closed)
      else if is_known q (job_id kind payload)
      then (q, ok (job_id kind payload))
      else if leb q.max_pending (count_active q.heap q.jobs)
      then (q, queue_full)
      else (enqueue q (new_job (job_id kind payload) kind payload), ok (job_id kind payload))

  -- `KeyError` is `none`.
  unfoldable pub status :
      JobQueue P → String → Option (String × State × Option String × Option String)
  status q identifier = elim (lookup identifier q.jobs) [
    | none ↦ none
    | some a ↦ some ((q.heap a).id, (q.heap a).state, (q.heap a).phase, (q.heap a).error)
  ]

  unfoldable pub result : JobQueue P → String → Option (String × Option String)
  result q identifier = elim (lookup identifier q.jobs) [
    | none ↦ none
    | some a ↦ if is_done (q.heap a).state then some ((q.heap a).kind, (q.heap a).path) else none
  ]

  unfoldable pub kind : JobQueue P → String → Option String
  kind q identifier = elim (lookup identifier q.jobs) [
    | none ↦ none
    | some a ↦ some (q.heap a).kind
  ]

  unfoldable pub count : JobQueue P → ℕ
  count q = length q.jobs

  -- `true` is the exception JobCancelled.
  unfoldable pub report : JobQueue P → String → JobQueue P × Bool
  report q phase = elim q.current [
    | none ↦ (q, false)
    | some a ↦
        if q.cancel
        then (q, true)
        else (record q { heap = update q.heap a (record (q.heap a) { phase = some phase }) }, false)
  ]

  unfoldable pub evict : JobQueue P → String → JobQueue P
  evict q identifier = elim (lookup identifier q.jobs) [
    | none ↦ q
    | some a ↦
        if is_done (q.heap a).state
        then record q {
          heap = update q.heap a (record (q.heap a) { state = evicted; path = none });
        }
        else q
  ]

  -- The lock section of `close`, and then its `put(None)`; the join changes no state.
  unfoldable pub close_begin : JobQueue P → JobQueue P
  close_begin q =
      if q.closed then q else record q { closed = true; cancel = true; close_put = true }

  unfoldable pub close_end : JobQueue P → JobQueue P
  close_end q =
      if q.close_put then record q { pending = q.pending ++ none ∷ []; close_put = false } else q

  -- `job = self._pending.get()`; with nothing pending the thread waits.
  get_pending : List (Option ℕ) → JobQueue P → JobQueue P
  get_pending [] q = q
  get_pending (none ∷ rest) q = record q { pending = rest; worker = stopped }
  get_pending (some a ∷ rest) q = record q { pending = rest; worker = holding a }

  -- The first lock section of `_work`.
  start : ℕ → JobQueue P → JobQueue P
  start a q = if q.closed then record q { worker = stopped } else record q {
    heap = update q.heap a (record (q.heap a) { state = running; phase = none; error = none });
    current = some a;
    worker = busy a;
  }

  settle : Outcome → Job P → Job P
  settle (returned path) job = record job {
    state = done;
    error = none;
    path = some path;
    payload = none;
  }
  settle job_cancelled job = record job {
    state = failed;
    error = some cancelled_error;
    path = none;
    payload = none;
  }
  settle (raised_value_error text) job = record job {
    state = failed;
    error = some text;
    path = none;
    payload = none;
  }
  settle raised_other job = record job {
    state = failed;
    error = some unexpected_error;
    path = none;
    payload = none;
  }

  -- The last lock section of `_work`.
  finish : ℕ → Outcome → JobQueue P → JobQueue P
  finish a outcome q = record q {
    heap = update q.heap a (settle outcome (q.heap a));
    current = none;
    worker = waiting;
  }

  -- One step of the worker thread; `outcome` is what `run_fn` does, if the thread is in it.
  dispatch : Worker → Outcome → JobQueue P → JobQueue P
  unfolding get_pending start finish settle
  dispatch waiting outcome q = get_pending q.pending q
  dispatch (holding a) outcome q = start a q
  dispatch (busy a) outcome q = finish a outcome q
  dispatch stopped outcome q = q

  unfoldable pub work : Outcome → JobQueue P → JobQueue P
  unfolding dispatch
  work outcome q = dispatch q.worker outcome q

-- What some thread does next. A schedule is a list of these.
pub data Action (P : Type 0) : Type 0 where
  call_submit : String → P → Action P
  call_report : String → Action P
  call_evict : String → Action P
  call_close : Action P
  finish_close : Action P
  run_worker : Outcome → Action P

module _ {P : Type 0} (job_id : String → P → String) where
  unfoldable pub step : JobQueue P → Action P → JobQueue P
  step q (call_submit kind payload) = (submit job_id q kind payload).0
  step q (call_report phase) = (report q phase).0
  step q (call_evict identifier) = evict q identifier
  step q call_close = close_begin q
  step q finish_close = close_end q
  step q (run_worker outcome) = work outcome q

  unfoldable pub run : JobQueue P → List (Action P) → JobQueue P
  run q [] = q
  run q (a ∷ rest) = run (step q a) rest
