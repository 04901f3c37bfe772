-- ===== src/Jobs/Work.antt =====
-- app/jobs.py: each step of the worker thread's loop (`_work`) keeps the invariant.
use native.Mathlib.Nat.{le_trans}
use openleo.Prelude.{
  ℕ, if_split, true, false, Option, none, some, List, [], ◌∷◌, ◌++◌, ◌≡◌, ◌≢◌, refl, ap, inr, arith,
}
use openleo.Jobs.{
  Job, Worker, waiting, holding, busy, stopped, JobQueue, Outcome, returned, is_active, get_pending,
  start, settle, finish, dispatch, work,
}
use openleo.Jobs.Invariant.{IsValid, elem, Distinct, addresses, held, owned}
use openleo.Jobs.Submit.{count_mono}

module _ {P : Type 0} where
  owned_of :
      (q : JobQueue P) (w : Worker) (l : List (Option ℕ))
      → q.worker ≡ w
      → q.pending ≡ l
      → owned q ≡ held w ++ addresses l
  owned_of q w l e d = λ i. held (e i) ++ addresses (d i)

  stopped-IsValid :
      (q : JobQueue P) (l : List (Option ℕ))
      → IsValid q
      → ((a : ℕ) → q.worker ≢ busy a)
      → ((a : ℕ) → elem a (addresses l) ≡ true → elem a (owned q) ≡ true)
      → Distinct (addresses l)
      → IsValid (record q { pending = l; worker = stopped })
  stopped-IsValid q l v idle sub once = record {
    registered = v.registered;
    owned_queued = λ a h. v.owned_queued a (sub a h);
    owned_once = once;
    busy_running = λ a h. cc;
    current_busy = λ a h. absurd (idle a (v.current_busy a h));
    running_busy = λ i a h r. absurd (idle a (v.running_busy i a h r));
    queued_owned = λ i a h r. inr refl;
    below = v.below;
    capacity = v.capacity;
    cancel_closed = v.cancel_closed;
  }

  get_pending-IsValid :
      (l : List (Option ℕ)) (q : JobQueue P)
      → q.pending ≡ l
      → q.worker ≡ waiting
      → IsValid q
      → IsValid (get_pending l q)
  unfolding get_pending
  get_pending-IsValid [] q d w v = v
  get_pending-IsValid (none ∷ rest) q d w v =
      let same = owned_of q waiting (none ∷ rest) w d in
      stopped-IsValid q rest v (λ a e. cc) (λ a h. rw same h) (rw same at v.owned_once)
  get_pending-IsValid (some b ∷ rest) q d w v =
      let same = owned_of q waiting (some b ∷ rest) w d in
      record {
        registered = v.registered;
        owned_queued = λ a h. v.owned_queued a (rw same h);
        owned_once = rw same at v.owned_once;
        busy_running = λ a h. cc;
        current_busy = λ a h. cc (v.current_busy a h);
        running_busy = λ i a h r. cc (v.running_busy i a h r);
        queued_owned = λ i a h r. ground (arith, v.queued_owned i a, ap (elem a) same);
        below = v.below;
        capacity = v.capacity;
        cancel_closed = v.cancel_closed;
      }

  start-IsValid : (b : ℕ) (q : JobQueue P) → q.worker ≡ holding b → IsValid q → IsValid (start b q)
  unfolding start
  start-IsValid b q w v =
      let same = owned_of q (holding b) q.pending w refl in
      let once : Distinct (b ∷ addresses q.pending) = rw same at v.owned_once in
      if_split IsValid q.closed
        (λ _.
          stopped-IsValid q q.pending v (λ a e. cc) (λ a h. ground (arith, ap (elem a) same))
            once.1)
        (λ _. record {
          registered = λ i a h. ground (arith, v.registered i a);
          owned_queued = λ a h. ground (arith, v.owned_queued a, ap (elem a) same);
          owned_once = once.1;
          busy_running = λ a h. ground (arith, v.owned_queued b, ap (elem b) same);
          current_busy = λ a h. ground arith;
          running_busy = λ i a h r. ground (arith, v.running_busy i a);
          queued_owned = λ i a h r. ground (arith, v.queued_owned i a, ap (elem a) same);
          below = v.below;
          capacity =
              le_trans
                (count_mono q.heap _ q.jobs
                  (λ a h. ground (arith, v.owned_queued b, ap (elem b) same)))
                v.capacity;
          cancel_closed = v.cancel_closed;
        })

  -- A finished job keeps its id and is done or failed.
  settle_lem :
      (o : Outcome) (j : Job P) → ((settle o j).id ≡ j.id) × (is_active (settle o j).state ≡ false)
  unfolding settle
  settle_lem (returned x) j = (refl, refl)
  settle_lem _ j = (refl, refl)

  finish-IsValid :
      (b : ℕ) (o : Outcome) (q : JobQueue P)
      → q.worker ≡ busy b
      → IsValid q
      → IsValid (finish b o q)
  unfolding finish
  finish-IsValid b o q w v =
      let same = owned_of q (busy b) q.pending w refl in
      let ends = settle_lem o (q.heap b) in
      record {
        registered = λ i a h. ground (arith, v.registered i a);
        owned_queued = λ a h. ground (arith, v.owned_queued a, v.busy_running b, ap (elem a) same);
        owned_once = rw same at v.owned_once;
        busy_running = λ a h. cc;
        current_busy = λ a h. cc;
        running_busy = λ i a h r. ground (arith, v.running_busy i a);
        queued_owned = λ i a h r. ground (arith, v.queued_owned i a, ap (elem a) same);
        below = v.below;
        capacity = le_trans (count_mono q.heap _ q.jobs (λ a h. ground arith)) v.capacity;
        cancel_closed = v.cancel_closed;
      }

  dispatch-IsValid :
      (w : Worker) (o : Outcome) (q : JobQueue P)
      → q.worker ≡ w
      → IsValid q
      → IsValid (dispatch w o q)
  unfolding dispatch
  dispatch-IsValid waiting o q e v = get_pending-IsValid q.pending q refl e v
  dispatch-IsValid (holding a) o q e v = start-IsValid a q e v
  dispatch-IsValid (busy a) o q e v = finish-IsValid a o q e v
  dispatch-IsValid stopped o q e v = v

  pub work-IsValid : (o : Outcome) (q : JobQueue P) → IsValid q → IsValid (work o q)
  unfolding work
  work-IsValid o q v = dispatch-IsValid q.worker o q refl v
