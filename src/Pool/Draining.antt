-- ===== src/Pool/Draining.antt =====
-- src/peek_pool.rs: once its feed closed, a job is done after two sections of the workers at most.
use hashdex.Base.{
  ℕ, zero, suc, ◌≤◌, ◌≡◌, ◌⊎◌, refl, sym, ap, ◌∙◌, inl, inr, true, false, Bool, Option, none, some,
  List, [], ◌∷◌, length, All, Option-cases, arith,
}
use mathlib.Core.Path.{subst}
use hashdex.Base.Bytes.{Bytes}
use hashdex.Pool.{
  Digester, Running, Event, fed, shut, takes, resumes, hash_chunks, step, steps_on, new_job, turn,
}
use hashdex.Pool.Jobs.{
  Fits, state, running, rests, waits, hashes, done, fed_bytes, reached-Fits, step-Fits, fed_state,
}

abbrev pub by_worker : Event → Bool
by_worker (fed c) = false
by_worker shut = false
by_worker takes = true
by_worker (resumes i) = true

-- The sections that are left for the workers.
left_of : {S : Type 0} → List S → List Bytes → ℕ
left_of (h ∷ hs) cs = 0
left_of [] [] = 1
left_of [] (c ∷ cs) = 2

last_section : 1 ≤ 1
last_section = omega arith

first_section : 2 ≤ 2
first_section = omega arith

module _ (d : Digester) where
  left : Running d.State → ℕ
  left r = left_of r.digests r.job.chunks

  left-le-two : (r : Running d.State) → left r ≤ 2
  unfolding left left_of
  left-le-two r = bound r.digests r.job.chunks
    where
      bound : (hs : List d.State) (cs : List Bytes) → left_of hs cs ≤ 2
      bound (h ∷ hs) cs = omega arith
      bound [] [] = omega arith
      bound [] (c ∷ cs) = omega arith

  abbrev Lower : Running d.State → Running d.State → Type 0
  Lower r s = (suc (left s) ≤ left r) × (s.job.closed ≡ true)

  lower :
      (r s s' : Running d.State)
      → Path (Option (Running d.State)) (some s) (some s')
      → Lower r s
      → Lower r s'
  lower r s s' e l = let e' : s ≡ s' = cc in subst (Lower r) e' l

  abbrev ended : d.State → Running d.State
  ended x = running d (state d [] none true false) 0 [] (x ∷ [])

  abbrev hashing : Bool → List Bytes → d.State → Running d.State
  hashing closed cs x = running d (state d [] none closed true) 0 ((cs, x) ∷ []) []

  worker_step :
      (all : d.State) (e : Event) (r r' : Running d.State)
      → Fits d all r
      → r.job.closed ≡ true
      → by_worker e ≡ true
      → step d e r ≡ some r'
      → Lower r r'
  unfolding step turn left left_of
  worker_step all (fed c) r r' f h w e = cc
  worker_step all shut r r' f h w e = cc
  worker_step all takes r r' (rests x p) h w e = cc
  worker_step all takes r r' (waits [] x false p) h w e = cc
  worker_step all takes r r' (waits [] x true p) h w e = lower r (ended x) r' e (last_section, refl)
  worker_step all takes r r' (waits (c ∷ cs) x closed p) h w e =
      lower r (hashing closed (c ∷ cs) x) r' e (first_section, h)
  worker_step all takes r r' (hashes cs ds x closed p) h w e = cc
  worker_step all takes r r' (done x p) h w e = cc
  worker_step all (resumes i) r r' (rests x p) h w e = cc
  worker_step all (resumes i) r r' (waits cs x closed p) h w e = cc
  worker_step all (resumes i) r r' (done x p) h w e = cc
  worker_step all (resumes (suc i)) r r' (hashes cs ds x closed p) h w e = cc
  worker_step all (resumes zero) r r' (hashes [] ds x false p) h w e = cc
  worker_step all (resumes zero) r r' (hashes [] ds x true p) h w e =
      lower r (ended (hash_chunks d x ds)) r' e (last_section, refl)
  worker_step all (resumes zero) r r' (hashes (c ∷ cs) ds x closed p) h w e =
      lower r (hashing closed (c ∷ cs) (hash_chunks d x ds)) r' e (first_section, h)

  fed_state_same : (all : d.State) (e : Event) → by_worker e ≡ true → fed_state d all e ≡ all
  fed_state_same all (fed c) w = cc
  fed_state_same all shut w = cc
  fed_state_same all takes w = refl
  fed_state_same all (resumes i) w = refl

  -- A section that a worker can do now.
  abbrev pub CanGo : Running d.State → Type 0
  CanGo r = (e : Event) × (s : Running d.State) × (by_worker e ≡ true) × (step d e r ≡ some s)

  -- Either the digest of the bytes is there, or a worker can go on.
  done_or_go :
      (all : d.State) (r : Running d.State)
      → Fits d all r
      → r.job.closed ≡ true
      → (r.digests ≡ all ∷ []) ⊎ CanGo r
  unfolding step turn
  done_or_go all r (rests x p) h = cc
  done_or_go all r (waits [] x false p) h = cc
  done_or_go all r (waits [] x true p) h = inr (takes, _, refl, refl)
  done_or_go all r (waits (c ∷ cs) x closed p) h = inr (takes, _, refl, refl)
  done_or_go all r (hashes [] ds x false p) h = cc
  done_or_go all r (hashes [] ds x true p) h = inr (resumes 0, _, refl, refl)
  done_or_go all r (hashes (c ∷ cs) ds x closed p) h = inr (resumes 0, _, refl, refl)
  done_or_go all r (done x p) h = inl (ap (λ y. y ∷ []) p)

  workers_run :
      (all : d.State) (ws : List Event) (r r' : Running d.State)
      → Fits d all r
      → r.job.closed ≡ true
      → All (λ e. by_worker e ≡ true) ws
      → steps_on d ws (some r) ≡ some r'
      → (length ws ≤ left r) × ((r'.digests ≡ all ∷ []) ⊎ CanGo r')
  workers_run all [] r r' f h w e =
      let e' : r ≡ r' = cc in
      (omega arith, subst (λ s. (s.digests ≡ all ∷ []) ⊎ CanGo s) e' (done_or_go all r f h))
  workers_run all (x ∷ ws) r r' f h (w, more) e = elim (Option-cases (step d x r)) [
    | inl p ↦ absurd (none_stays ws r' (ap (steps_on d ws) (sym p) ∙ e))
    | inr (s, p) ↦
        let (low, closed) = worker_step all x r s f h w p in
        let fits = subst (λ a. Fits d a s) (fed_state_same all x w) (step-Fits d all x r f s p) in
        let (fewer, end) =
          workers_run all ws s r' fits closed more (ap (steps_on d ws) (sym p) ∙ e) in
        (omega (arith, low, fewer), end)
  ]
    where
      none_stays :
          (es : List Event) (s : Running d.State)
          → Path (Option (Running d.State)) (steps_on d es none) (some s)
          → ⊥
      none_stays [] s q = cc
      none_stays (y ∷ es) s q = cc

  -- After its feed closed, a job takes two sections of workers at most, in whatever order they come,
  -- and until the digest of the bytes fed is there a worker can do another.
  pub closed_drains :
      (h : d.State) (es : List Event) (r : Running d.State) (ws : List Event) (r' : Running d.State)
      → steps_on d es (some (new_job d h)) ≡ some r
      → r.job.closed ≡ true
      → All (λ e. by_worker e ≡ true) ws
      → steps_on d ws (some r) ≡ some r'
      → (length ws ≤ 2) × ((r'.digests ≡ d.update h (fed_bytes es) ∷ []) ⊎ CanGo r')
  closed_drains h es r ws r' reached closed workers run =
      let (fewer, end) =
        workers_run (d.update h (fed_bytes es)) ws r r' (reached-Fits d h es r reached) closed
          workers run in
      (omega (arith, fewer, left-le-two r), end)
