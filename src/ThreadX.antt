-- ===== src/ThreadX.antt =====
-- The platform over ThreadX: sdk_cpp/ports/threadx/threadx_platform.hpp. The kernel's semaphore is
-- a parameter; what the kernel answers to the other calls is an argument.
pub mod Notifications
use grippers.Prelude.{
  ℕ, zero, suc, ◌+◌, ◌-◌, ◌≡◌, ◌<◌, Bool, true, false, Option, none, some, List, [], ◌∷◌, ◌==◌,
  if◌then◌else◌,
}
use grippers.Ticks.{blocking_ticks}

-- tx_semaphore_create with a count of 0, tx_semaphore_put, and the end of a tx_semaphore_get that
-- got an instance: none while there is none, and the thread waits.
pub record Semaphore (S : Type 0) : Type 0 where
  pub created : S
  pub get : S → Option S
  pub put : S → S

-- The documented count of instances.
pub record Counts {S : Type 0} (k : Semaphore S) : Type 0 where
  pub available : S → ℕ
  pub available-created : available k.created ≡ 0
  pub available-put : (s : S) → available (k.put s) ≡ available s + 1
  pub available-get : (s s' : S) → k.get s ≡ some s' → available s ≡ available s' + 1
  pub get_available : (s : S) → 0 < available s → (s' : S) × (k.get s ≡ some s')

-- ThreadXConditionVariable, with where its callers are: how many have registered and have not come
-- back from the semaphore, how many have come back and are still counted, and how many tokens the
-- calls of notifyAll() under way have still to put.
pub record Condition (S : Type 0) : Type 0 where
  pub semaphore : S
  pub waiters : ℕ
  pub in_get : ℕ
  pub back : ℕ
  pub pending : ℕ

module _ {S : Type 0} (k : Semaphore S) where
  unfoldable pub new_condition : Condition S
  new_condition = record { semaphore = k.created; waiters = 0; in_get = 0; back = 0; pending = 0 }

  -- waitUntil(): the caller registers while it holds the mutex, waits on the semaphore, comes back
  -- with a token or by its timeout, and is no longer counted.
  unfoldable pub register : Condition S → Condition S
  register c = record c { waiters = c.waiters + 1; in_get = c.in_get + 1 }

  unfoldable pub come_back : S → Condition S → Condition S
  come_back s c = record c { semaphore = s; in_get = c.in_get - 1; back = c.back + 1 }

  unfoldable pub leave : Condition S → Condition S
  leave c = record c { waiters = c.waiters - 1; back = c.back - 1 }

  -- notifyAll(): the count of waiters is read, then a token is put for each.
  unfoldable pub load : Condition S → Condition S
  load c = record c { pending = c.pending + c.waiters }

  unfoldable pub put_token : Condition S → Condition S
  put_token c = record c { semaphore = k.put c.semaphore; pending = c.pending - 1 }

  -- The accesses of any number of callers, in any order.
  pub data Access (c : Condition S) : Condition S → Type 0 where
    registers : Access c (register c)
    takes : {s : S} → 0 < c.in_get → k.get c.semaphore ≡ some s → Access c (come_back s c)
    times_out : 0 < c.in_get → Access c (come_back c.semaphore c)
    leaves : 0 < c.back → Access c (leave c)
    loads : Access c (load c)
    puts : 0 < c.pending → Access c (put_token c)

  pub data Accesses (c : Condition S) : Condition S → Type 0 where
    here : Accesses c c
    next : {d e : Condition S} → Accesses c d → Access d e → Accesses c e

-- The state of a task, as tx_thread_info_get tells it.
pub data TaskState : Type 0 where
  task_completed task_terminated task_other : TaskState

-- ThreadXThread::join over the states that its looks find: the ticks slept, none while the task
-- runs on.
unfoldable pub join : List TaskState → Option ℕ
join [] = none
join (task_completed ∷ later) = some 0
join (task_terminated ∷ later) = some 0
join (task_other ∷ later) =
    let rest = join later in elim rest [ none ↦ none | some ticks ↦ some (ticks + 1) ]

-- The destructor's calls on the task: one that was not joined is terminated first.
pub data TaskCall : Type 0 where
  terminate delete : TaskCall

unfoldable pub destroy : Bool → List TaskCall
destroy joined = if joined then delete ∷ [] else terminate ∷ delete ∷ []

-- The tick count given to tx_thread_sleep by sleepUntil() and sleepFor(); none where the time has
-- come and the kernel is not called.
module _ (per_second wait_forever : ℕ) where
  unfoldable pub sleep_for : ℕ → Option ℕ
  sleep_for duration =
      let ticks = blocking_ticks per_second wait_forever duration in
      if ticks == 0 then none else some ticks

  unfoldable pub sleep_until : ℕ → ℕ → Option ℕ
  unfolding sleep_for
  sleep_until time_point now = sleep_for (time_point - now)
