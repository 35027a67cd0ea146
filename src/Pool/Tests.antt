-- ===== src/Pool/Tests.antt =====
-- Runs of a hash job of src/peek_pool.rs, and the theorems at concrete inputs.
use hashdex.Base.{
  ◌+◌, ◌≤◌, ◌<◌, ◌≡◌, ◌⊎◌, refl, true, false, none, some, List, [], ◌∷◌, ◌++◌, length, All, arith,
}
use mathlib.Core.List.{append_assoc, append-nil}
use hashdex.Base.Bytes.{Bytes}
use hashdex.Pool.{
  Digester, Running, Event, fed, shut, takes, resumes, step, steps_on, new_job, chunk_size, push,
}
use hashdex.Pool.Jobs.{running, state, job_hashed}
use hashdex.Pool.Draining.{CanGo, closed_drains}
use hashdex.Pool.Feeding.{joined, push-joined}

-- A digest that keeps its bytes.
abbrev keeping : Digester
keeping = record {
  State = Bytes;
  update = λ h b. h ++ b;
  streaming = append_assoc;
  nothing = append-nil;
}

abbrev three : Bytes
three = 1 ∷ 2 ∷ 3 ∷ []

-- A chunk comes while a worker hashes the one before, and the feed closes.
abbrev busy : List Event
busy = fed (1 ∷ []) ∷ takes ∷ fed (2 ∷ 3 ∷ []) ∷ shut ∷ []

abbrev halfway : Running Bytes
halfway =
    running keeping (state keeping ((2 ∷ 3 ∷ []) ∷ []) none true true) 0 (((1 ∷ []) ∷ [], []) ∷ [])
      []

abbrev finished : Running Bytes
finished = running keeping (state keeping [] none true false) 0 [] ((1 ∷ 2 ∷ 3 ∷ []) ∷ [])

busy_runs : steps_on keeping busy (some (new_job keeping [])) ≡ some halfway
unfolding step
busy_runs = refl

rest_runs : steps_on keeping (resumes 0 ∷ resumes 0 ∷ []) (some halfway) ≡ some finished
unfolding step
rest_runs = refl

job_hashed_example : (false ≡ false) × (0 + 1 ≤ 1) × (0 ≤ 1) × All (λ (x : Bytes). x ≡ three) []
job_hashed_example = job_hashed keeping [] busy halfway busy_runs

closed_drains_example : (2 ≤ 2) × ((finished.digests ≡ three ∷ []) ⊎ CanGo keeping finished)
closed_drains_example =
    closed_drains keeping [] busy halfway (resumes 0 ∷ resumes 0 ∷ []) finished busy_runs refl
      (refl, (refl, tt)) rest_runs

push-joined_example :
    (joined ((push (1 ∷ []) (2 ∷ 3 ∷ [])).0) ++ (push (1 ∷ []) (2 ∷ 3 ∷ [])).1 ≡ 1 ∷ 2 ∷ 3 ∷ [])
    × All (λ c. length c ≡ chunk_size) ((push (1 ∷ []) (2 ∷ 3 ∷ [])).0)
    × (length ((push (1 ∷ []) (2 ∷ 3 ∷ [])).1) < chunk_size)
push-joined_example = push-joined (1 ∷ []) (2 ∷ 3 ∷ []) (omega arith)
