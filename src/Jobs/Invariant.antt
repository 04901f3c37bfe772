-- ===== src/Jobs/Invariant.antt =====
-- app/jobs.py: what holds of the job queue between any two steps of its threads.
use openleo.Prelude.{
  ℕ, ◌+◌, ◌≤◌, ◌<◌, if◌then◌else◌, Bool-cases, String, str_eq, eq_iff, true, false, Option, none,
  some, List, [], ◌∷◌, ◌++◌, ◌≡◌, refl, ◌⊎◌, inl, inr, arith,
}
pub use openleo.Prelude.{elem, elem-append}
use openleo.Jobs.{
  queued, running, Worker, holding, busy, stopped, JobQueue, lookup, insert, count_active,
}

abbrev pub Distinct : List ℕ → Type 0
Distinct [] = Unit
Distinct (x ∷ xs) = (elem x xs ≡ false) × Distinct xs

-- The jobs that wait in the queue, and the one that the worker has taken from it.
abbrev pub addresses : List (Option ℕ) → List ℕ
addresses [] = []
addresses (none ∷ l) = addresses l
addresses (some a ∷ l) = a ∷ addresses l

abbrev pub held : Worker → List ℕ
held (holding a) = a ∷ []
held _ = []

abbrev pub owned : {P : Type 0} → JobQueue P → List ℕ
owned q = held q.worker ++ addresses q.pending

-- Every job of the dictionary stands below the next free address.
abbrev pub AllBelow : ℕ → List (String × ℕ) → Type 0
AllBelow n [] = Unit
AllBelow n ((_, a) ∷ m) = (a < n) × AllBelow n m

pub record IsValid {P : Type 0} (q : JobQueue P) : Type 0 where
  pub registered :
      (i : String) (a : ℕ) → lookup i q.jobs ≡ some a → (a < q.next) × ((q.heap a).id ≡ i)
  pub owned_queued :
      (a : ℕ)
      → elem a (owned q) ≡ true
      → ((q.heap a).state ≡ queued) × (lookup (q.heap a).id q.jobs ≡ some a)
  pub owned_once : Distinct (owned q)
  pub busy_running :
      (a : ℕ)
      → q.worker ≡ busy a
      → ((q.heap a).state ≡ running) × (lookup (q.heap a).id q.jobs ≡ some a) × (q.current ≡ some a)
  pub current_busy : (a : ℕ) → q.current ≡ some a → q.worker ≡ busy a
  pub running_busy :
      (i : String) (a : ℕ)
      → lookup i q.jobs ≡ some a
      → (q.heap a).state ≡ running
      → q.worker ≡ busy a
  pub queued_owned :
      (i : String) (a : ℕ)
      → lookup i q.jobs ≡ some a
      → (q.heap a).state ≡ queued
      → (elem a (owned q) ≡ true) ⊎ (q.worker ≡ stopped)
  pub below : AllBelow q.next q.jobs
  pub capacity : count_active q.heap q.jobs ≤ q.max_pending
  pub cancel_closed : q.cancel ≡ q.closed

pub lookup-insert :
    (k j : String) (a : ℕ) (m : List (String × ℕ))
    → lookup j (insert k a m) ≡ (if str_eq k j then some a else lookup j m)
unfolding lookup insert
lookup-insert k j a [] = refl
lookup-insert k j a ((i, b) ∷ m) =
    ground (arith, eq_iff k j, eq_iff i k, eq_iff i j, lookup-insert k j a m)

pub addresses-append :
    (xs ys : List (Option ℕ)) → addresses (xs ++ ys) ≡ addresses xs ++ addresses ys
addresses-append [] ys = refl
addresses-append (none ∷ xs) ys = addresses-append xs ys
addresses-append (some a ∷ xs) ys = rw (addresses-append xs ys)

pub Distinct-append_one :
    (xs : List ℕ) (a : ℕ) → elem a xs ≡ false → Distinct xs → Distinct (xs ++ a ∷ [])
Distinct-append_one [] a h d = (refl, tt)
Distinct-append_one (x ∷ xs) a h d =
    (ground (arith, elem-append x xs (a ∷ [])), Distinct-append_one xs a (ground arith) d.1)

AllBelow-suc : (n : ℕ) (m : List (String × ℕ)) → AllBelow n m → AllBelow (n + 1) m
AllBelow-suc n [] h = tt
AllBelow-suc n ((_, a) ∷ m) h = (omega arith, AllBelow-suc n m h.1)

pub AllBelow-insert :
    (k : String) (n : ℕ) (m : List (String × ℕ)) → AllBelow n m → AllBelow (n + 1) (insert k n m)
unfolding insert
AllBelow-insert k n [] h = (omega arith, tt)
AllBelow-insert k n ((j, b) ∷ m) h =
    let weak = AllBelow-suc n m h.1 in
    let rest = AllBelow-insert k n m h.1 in
    elim (Bool-cases (str_eq j k)) [
      | inl e ↦ rw e (omega arith, weak)
      | inr e ↦ rw e (omega arith, rest)
    ]
