-- ===== src/Jobs/Submit.antt =====
-- app/jobs.py: `submit`, `evict`, `report` and `close` keep the invariant.
use mathlib.Core.List.{append_assoc, append-nil}
use native.Mathlib.Nat.{le_trans}
use openleo.Prelude.{
  ℕ, ◌+◌, ◌≤◌, ◌<◌, leb, Bool-cases, option_split, if_split, not, String, eq_iff, Bool, true, false,
  none, some, List, [], ◌∷◌, ◌++◌, ◌≡◌, refl, ap, ◌⊎◌, inl, inr, arith,
}
use openleo.Jobs.{
  queued, done, evicted, Job, JobQueue, lookup, insert, update, is_active, count_active, enqueue,
  is_known, submit, evict, report, close_begin, close_end, new_job, is_kind, is_done, Response,
}
use openleo.Jobs.Invariant.{
  IsValid, AllBelow, AllBelow-insert, elem, owned, lookup-insert, elem-append, addresses-append,
  Distinct-append_one,
}

module _ {P : Type 0} where
  -- An update at a free address does not change the count.
  count-fresh :
      (h : ℕ → Job P) (n : ℕ) (j : Job P) (m : List (String × ℕ))
      → AllBelow n m
      → count_active (update h n j) m ≡ count_active h m
  unfolding count_active
  count-fresh h n j [] b = refl
  count-fresh h n j ((i, a) ∷ m) b = ground (arith, count-fresh h n j m b.1)

  count-insert :
      (h : ℕ → Job P) (k : String) (a : ℕ) (m : List (String × ℕ))
      → count_active h (insert k a m) ≤ count_active h m + 1
  unfolding count_active insert
  count-insert h k a [] = ground arith
  count-insert h k a ((j, b) ∷ m) = ground (arith, count-insert h k a m)

  pub count_mono :
      (h h' : ℕ → Job P) (m : List (String × ℕ))
      → ((a : ℕ) → is_active (h' a).state ≡ true → is_active (h a).state ≡ true)
      → count_active h' m ≤ count_active h m
  unfolding count_active
  count_mono h h' [] f = omega arith
  count_mono h h' ((i, a) ∷ m) f = ground (arith, count_mono h h' m f, f a)

  pub owned-enqueue :
      (q : JobQueue P) (job : Job P) → owned (enqueue q job) ≡ owned q ++ q.next ∷ []
  owned-enqueue q job = simp (addresses-append, append_assoc)

  next-not_owned : (q : JobQueue P) → IsValid q → elem q.next (owned q) ≡ false
  next-not_owned q v = elim (Bool-cases (elem q.next (owned q))) [
    | inl e ↦ absurd (omega (arith, (v.registered _ q.next (v.owned_queued q.next e).1).0))
    | inr e ↦ e
  ]

  enqueue-IsValid :
      (q : JobQueue P) (job : Job P)
      → IsValid q
      → job.state ≡ queued
      → ((a : ℕ) → lookup job.id q.jobs ≡ some a → is_active (q.heap a).state ≡ false)
      → count_active q.heap q.jobs < q.max_pending
      → IsValid (enqueue q job)
  enqueue-IsValid q job v s old room = record {
    registered = λ i a h.
        ground (arith, lookup-insert job.id i q.next q.jobs, eq_iff job.id i, v.registered i a);
    owned_queued = λ a h. ground (
      arith,
      lookup-insert job.id (q.heap a).id q.next q.jobs,
      lookup-insert job.id job.id q.next q.jobs,
      eq_iff job.id (q.heap a).id,
      eq_iff job.id job.id,
      v.owned_queued a,
      v.registered (q.heap a).id a,
      ap (elem a) (owned-enqueue q job),
      elem-append a (owned q) (q.next ∷ []),
      old a,
    );
    owned_once =
        rw (owned-enqueue q job)
          (Distinct-append_one (owned q) q.next (next-not_owned q v) v.owned_once);
    busy_running = λ a h. ground (
      arith,
      lookup-insert job.id (q.heap a).id q.next q.jobs,
      eq_iff job.id (q.heap a).id,
      v.busy_running a,
      v.registered (q.heap a).id a,
      old a,
    );
    current_busy = λ a h. v.current_busy a h;
    running_busy = λ i a h r.
        ground (arith, lookup-insert job.id i q.next q.jobs, v.running_busy i a, v.registered i a);
    queued_owned = λ i a h r. ground (
      arith,
      lookup-insert job.id i q.next q.jobs,
      v.queued_owned i a,
      ap (elem a) (owned-enqueue q job),
      elem-append a (owned q) (q.next ∷ []),
    );
    below = AllBelow-insert job.id q.next q.jobs v.below;
    capacity = omega (
      arith,
      count-insert (update q.heap q.next job) job.id q.next q.jobs,
      count-fresh q.heap q.next job q.jobs v.below,
    );
    cancel_closed = v.cancel_closed;
  }

  -- `is_known` fails at a registered job only if that job is failed or evicted.
  not_known-is_active :
      (q : JobQueue P) (i : String) (a : ℕ)
      → is_known q i ≡ false
      → lookup i q.jobs ≡ some a
      → is_active (q.heap a).state ≡ false
  unfolding is_known
  not_known-is_active q i a k h = ground arith

  pub submit-IsValid :
      (job_id : String → P → String) (q : JobQueue P) (kind : String) (payload : P)
      → IsValid q
      → IsValid (submit job_id q kind payload).0
  unfolding submit
  submit-IsValid job_id q kind payload v =
      let i = job_id kind payload in
      let Q : JobQueue P × Response → Type 0 = λ r. IsValid r.0 in
      if_split Q (not (is_kind kind)) (λ _. v)
        (λ _.
          if_split Q q.closed (λ _. v)
            (λ _.
              if_split Q (is_known q i) (λ _. v)
                (λ k.
                  if_split Q (leb q.max_pending (count_active q.heap q.jobs)) (λ _. v)
                    (λ room.
                      enqueue-IsValid q (new_job i kind payload) v refl
                        (λ a h. not_known-is_active q i a k h) (ground arith)))))

  -- A write to one job that keeps what the dictionary, the queue and the worker rely on.
  pub rewrite-IsValid :
      (q : JobQueue P) (a : ℕ) (job : Job P)
      → IsValid q
      → job.id ≡ (q.heap a).id
      → (job.state ≡ (q.heap a).state) ⊎ (((q.heap a).state ≡ done) × (job.state ≡ evicted))
      → IsValid (record q { heap = update q.heap a job })
  rewrite-IsValid q a job v same kept = record {
    registered = λ i b h. ground (arith, v.registered i b);
    owned_queued = λ b h. ground (arith, v.owned_queued b);
    owned_once = v.owned_once;
    busy_running = λ b h. ground (arith, v.busy_running b);
    current_busy = v.current_busy;
    running_busy = λ i b h r. ground (arith, v.running_busy i b);
    queued_owned = λ i b h r. ground (arith, v.queued_owned i b);
    below = v.below;
    capacity =
        le_trans (count_mono q.heap (update q.heap a job) q.jobs (λ b h. ground arith)) v.capacity;
    cancel_closed = v.cancel_closed;
  }

  pub evict-IsValid : (q : JobQueue P) (i : String) → IsValid q → IsValid (evict q i)
  unfolding evict
  evict-IsValid q i v =
      option_split IsValid (lookup i q.jobs) (λ _. v)
        (λ a _.
          if_split IsValid (is_done (q.heap a).state)
            (λ d.
              rewrite-IsValid q a (record (q.heap a) { state = evicted; path = none }) v refl
                (inr (ground arith, refl)))
            (λ _. v))

  pub report-IsValid : (q : JobQueue P) (phase : String) → IsValid q → IsValid (report q phase).0
  unfolding report
  report-IsValid q phase v =
      let Q : JobQueue P × Bool → Type 0 = λ r. IsValid r.0 in
      option_split Q q.current (λ _. v)
        (λ a _.
          if_split Q q.cancel (λ _. v)
            (λ _. rewrite-IsValid q a (record (q.heap a) { phase = some phase }) v refl (inl refl)))

  pub close_begin-IsValid : (q : JobQueue P) → IsValid q → IsValid (close_begin q)
  unfolding close_begin
  close_begin-IsValid q v =
      if_split IsValid q.closed (λ _. v)
        (λ _. record {
          registered = v.registered;
          owned_queued = v.owned_queued;
          owned_once = v.owned_once;
          busy_running = v.busy_running;
          current_busy = v.current_busy;
          running_busy = v.running_busy;
          queued_owned = v.queued_owned;
          below = v.below;
          capacity = v.capacity;
          cancel_closed = refl;
        })

  owned-close_end :
      (q : JobQueue P) → owned (record q { pending = q.pending ++ none ∷ [] }) ≡ owned q
  owned-close_end q = simp (addresses-append, append-nil)

  pub close_end-IsValid : (q : JobQueue P) → IsValid q → IsValid (close_end q)
  unfolding close_end
  close_end-IsValid q v =
      if_split IsValid q.close_put
        (λ _. record {
          registered = v.registered;
          owned_queued = λ a h. v.owned_queued a (rw (owned-close_end q) at h);
          owned_once = rw (owned-close_end q) v.owned_once;
          busy_running = v.busy_running;
          current_busy = v.current_busy;
          running_busy = v.running_busy;
          queued_owned = λ i a h r. rw (owned-close_end q) (v.queued_owned i a h r);
          below = v.below;
          capacity = v.capacity;
          cancel_closed = v.cancel_closed;
        })
        (λ _. v)
