-- ===== src/Pool.antt =====
-- src/peek_pool.rs: one hash job of a member, between the feed that gives it chunks and the workers
-- that hash them; and the buffer of the feed.
--
-- A section under the lock of the job is one step. The digest crates are the parameter `Digester`.
-- A task that is enqueued right after the lock is dropped is enqueued in the same step.
pub mod Feeding
pub mod Jobs
pub mod Probe
pub mod Sealing
pub mod Draining
mod Tests
use hashdex.Base.{
  ℕ, zero, suc, ◌+◌, ◌-◌, ◌*◌, ◌≡◌, min, Bool, true, false, not, Option, none, some, List, [], ◌∷◌,
  ◌++◌, length, take, drop, get_elem?, leb, if◌then◌else◌,
}
use hashdex.Base.Bytes.{Bytes}

-- The running state of a digest, fed piece by piece.
pub record Digester : Type 1 where
  pub State : Type 0
  pub update : State → Bytes → State
  pub streaming : (h : State) (a b : Bytes) → update (update h a) b ≡ update h (a ++ b)
  pub nothing : (h : State) → update h [] ≡ h

abbrev pub chunk_size : ℕ
chunk_size = 256 * 1024

-- The chunks that the loop of `Feed::push` flushes, and the buffer that it leaves. Fuel: a turn
-- takes a byte at least.
unfoldable pub push_loop : ℕ → Bytes → Bytes → List Bytes × Bytes
push_loop zero buf bytes = ([], buf)
push_loop (suc n) buf [] = ([], buf)
push_loop (suc n) buf (b ∷ bs) =
    let room = chunk_size - length buf in
    let taken = min room (length (b ∷ bs)) in
    let full = buf ++ take taken (b ∷ bs) in
    let left = drop taken (b ∷ bs) in
    let rest = push_loop n full left in
    let flushed = push_loop n [] left in
    if leb chunk_size (length full) then (full ∷ flushed.0, flushed.1) else rest

pub push : Bytes → Bytes → List Bytes × Bytes
unfolding push_loop
push buf bytes = push_loop (length bytes) buf bytes

module _ (State : Type 0) where
  pub record JobState : Type 0 where
    pub chunks : List Bytes
    pub hasher : Option State
    pub closed : Bool
    pub queued : Bool

  -- How a section of `run_hash` under the lock ends: the job has its digest, the worker leaves, it
  -- goes on to hash what it drained, or it finds no hasher and panics.
  pub data Turn : Type 0 where
    finalized : JobState → State → Turn
    leaves : JobState → Turn
    drained : JobState → List Bytes → State → Turn
    panics : JobState → Turn

  -- One member's job in the pool: the tasks of it in the queue, the workers that hash for it outside
  -- the lock with what they took, the digests that were finalized, and whether a worker panicked.
  pub record Running : Type 0 where
    pub job : JobState
    pub queue : ℕ
    pub workers : List (List Bytes × State)
    pub digests : List State
    pub panicked : Bool

-- `flush` of one chunk to one job, and whether it enqueues a task.
unfoldable pub push_chunk : {S : Type 0} → Bytes → JobState S → JobState S × Bool
push_chunk c st = (
  record { chunks = st.chunks ++ (c ∷ []); hasher = st.hasher; closed = st.closed; queued = true },
  not st.queued,
)

unfoldable pub close_job : {S : Type 0} → JobState S → JobState S × Bool
close_job st =
    (record { chunks = st.chunks; hasher = st.hasher; closed = true; queued = true }, not st.queued)

abbrev pub finish : {S : Type 0} → JobState S → Option S → Turn S
finish st none =
    leaves (record { chunks = st.chunks; hasher = none; closed = st.closed; queued = false })
finish st (some h) =
    finalized (record { chunks = st.chunks; hasher = none; closed = st.closed; queued = false }) h

abbrev pub drain : {S : Type 0} → JobState S → List Bytes → Option S → Turn S
drain st cs none = panics st
drain st cs (some h) =
    drained (record { chunks = []; hasher = none; closed = st.closed; queued = st.queued }) cs h

abbrev pub turn_on : {S : Type 0} → JobState S → List Bytes → Turn S
turn_on st (c ∷ cs) = drain st (c ∷ cs) st.hasher
turn_on st [] =
    if st.closed
    then finish st st.hasher
    else leaves (record { chunks = []; hasher = st.hasher; closed = st.closed; queued = false })

-- The head of the loop of `run_hash`.
unfoldable pub turn : {S : Type 0} → JobState S → Turn S
turn st = turn_on st st.chunks

abbrev pub hash_chunks : (d : Digester) → d.State → List Bytes → d.State
hash_chunks d h [] = h
hash_chunks d h (c ∷ cs) = hash_chunks d (d.update h c) cs

-- What happens to a job: the feed pushes a chunk, it closes, a worker takes a task, and the worker
-- of that index comes back to the lock.
pub data Event : Type 0 where
  fed : Bytes → Event
  shut : Event
  takes : Event
  resumes : ℕ → Event

abbrev pub enqueue : {S : Type 0} → Running S → JobState S × Bool → Running S
enqueue r (st, more) = record {
  job = st;
  queue = if more then suc r.queue else r.queue;
  workers = r.workers;
  digests = r.digests;
  panicked = r.panicked;
}

-- The job after a turn of one worker, which the state does not count among its workers.
abbrev pub after : {S : Type 0} → Running S → Turn S → Running S
after r (finalized st h) = record {
  job = st;
  queue = r.queue;
  workers = r.workers;
  digests = h ∷ r.digests;
  panicked = r.panicked;
}
after r (leaves st) = record {
  job = st;
  queue = r.queue;
  workers = r.workers;
  digests = r.digests;
  panicked = r.panicked;
}
after r (drained st cs h) = record {
  job = st;
  queue = r.queue;
  workers = (cs, h) ∷ r.workers;
  digests = r.digests;
  panicked = r.panicked;
}
after r (panics st) = record {
  job = st;
  queue = r.queue;
  workers = r.workers;
  digests = r.digests;
  panicked = true;
}

abbrev take_task : {S : Type 0} → Running S → ℕ → Option (Running S)
take_task r zero = none
take_task r (suc q) = some (
    after
      (record {
        job = r.job;
        queue = q;
        workers = r.workers;
        digests = r.digests;
        panicked = r.panicked;
      })
      (turn r.job))

abbrev without {ℓ} : {A : Type ℓ} → ℕ → List A → List A
without i [] = []
without zero (x ∷ xs) = xs
without (suc i) (x ∷ xs) = x ∷ without i xs

abbrev come_back :
    (d : Digester) → Running d.State → ℕ → Option (List Bytes × d.State) → Option (Running d.State)
come_back d r i none = none
come_back d r i (some (cs, h)) =
    let st : JobState d.State = record {
      chunks = r.job.chunks;
      hasher = some (hash_chunks d h cs);
      closed = r.job.closed;
      queued = r.job.queued;
    } in
    some (
      after
        (record {
          job = st;
          queue = r.queue;
          workers = without i r.workers;
          digests = r.digests;
          panicked = r.panicked;
        })
        (turn st))

-- `none` where the event cannot happen. `Feed::close` takes the feed, so that nothing is pushed
-- after it and it happens once.
unfoldable pub step : (d : Digester) → Event → Running d.State → Option (Running d.State)
unfolding push_chunk close_job turn
step d (fed c) r = if r.job.closed then none else some (enqueue r (push_chunk c r.job))
step d shut r = if r.job.closed then none else some (enqueue r (close_job r.job))
step d takes r = take_task r r.queue
step d (resumes i) r = come_back d r i (get_elem? r.workers i)

abbrev pub steps_on :
    (d : Digester) → List Event → Option (Running d.State) → Option (Running d.State)
steps_on d [] r = r
steps_on d (e ∷ es) none = none
steps_on d (e ∷ es) (some r) = steps_on d es (step d e r)

-- `Pool::member` makes the job.
abbrev pub new_job : (d : Digester) → d.State → Running d.State
new_job d h = record {
  job = record { chunks = []; hasher = some h; closed = false; queued = false };
  queue = 0;
  workers = [];
  digests = [];
  panicked = false;
}
