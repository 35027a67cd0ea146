-- ===== src/Pool/Jobs.antt =====
-- src/peek_pool.rs: whatever the order of the feed's and the workers' sections, a job's digest is
-- that of the bytes that were fed, and one worker at a time hashes for it.
use hashdex.Base.{
  ℕ, zero, suc, ◌≡◌, refl, sym, ap, ◌∙◌, true, false, Bool, Option, none, some, List, [], ◌∷◌, ◌++◌,
  length, Option-cases, inl, inr, ◌+◌, ◌≤◌, All, arith,
}
use mathlib.Core.Path.{subst}
use hashdex.Base.Bytes.{Bytes}
use hashdex.Pool.{
  Digester, JobState, Running, Event, fed, shut, takes, resumes, hash_chunks, step, steps_on,
  new_job, push_chunk, close_job, turn,
}

-- The bytes that a list of events feeds.
abbrev pub fed_bytes : List Event → Bytes
fed_bytes [] = []
fed_bytes (fed c ∷ es) = c ++ fed_bytes es
fed_bytes (shut ∷ es) = fed_bytes es
fed_bytes (takes ∷ es) = fed_bytes es
fed_bytes (resumes i ∷ es) = fed_bytes es

module _ (d : Digester) where
  abbrev pub state : List Bytes → Option d.State → Bool → Bool → JobState d.State
  state cs h closed queued = record { chunks = cs; hasher = h; closed = closed; queued = queued }

  abbrev pub running :
      JobState d.State → ℕ → List (List Bytes × d.State) → List d.State → Running d.State
  running st queue workers digests = record {
    job = st;
    queue = queue;
    workers = workers;
    digests = digests;
    panicked = false;
  }

  -- What a job can be while all that was fed to it makes the digest state `all`: at rest, with one
  -- task in the queue, with one worker hashing, or done.
  pub data Fits (all : d.State) : Running d.State → Type 0 where
    rests : (h : d.State) → h ≡ all → Fits all (running (state [] (some h) false false) 0 [] [])
    waits :
        (cs : List Bytes) (h : d.State) (closed : Bool)
        → hash_chunks d h cs ≡ all
        → Fits all (running (state cs (some h) closed true) 1 [] [])
    hashes :
        (cs ds : List Bytes) (h : d.State) (closed : Bool)
        → hash_chunks d (hash_chunks d h ds) cs ≡ all
        → Fits all (running (state cs none closed true) 0 ((ds, h) ∷ []) [])
    done : (h : d.State) → h ≡ all → Fits all (running (state [] none true false) 0 [] (h ∷ []))

  hash_chunks-append :
      (h : d.State) (cs : List Bytes) (c : Bytes)
      → hash_chunks d h (cs ++ (c ∷ [])) ≡ d.update (hash_chunks d h cs) c
  hash_chunks-append h [] c = refl
  hash_chunks-append h (x ∷ xs) c = hash_chunks-append (d.update h x) xs c

  -- The digest state after an event.
  abbrev pub fed_state : d.State → Event → d.State
  fed_state all (fed c) = d.update all c
  fed_state all shut = all
  fed_state all takes = all
  fed_state all (resumes i) = all

  abbrev Steps : d.State → Event → Running d.State → Type 0
  Steps all e r = (r' : Running d.State) → step d e r ≡ some r' → Fits (fed_state all e) r'

  to :
      (all : d.State) (r r' : Running d.State)
      → Fits all r
      → Path (Option (Running d.State)) (some r) (some r')
      → Fits all r'
  to all r r' f e = let e' : r ≡ r' = cc in subst (Fits all) e' f

  pub step-Fits : (all : d.State) (e : Event) (r : Running d.State) → Fits all r → Steps all e r
  unfolding step push_chunk close_job turn
  step-Fits all (fed c) r (rests h p) r' e =
      to _ _ r' (waits (c ∷ []) h false (ap (λ x. d.update x c) p)) e
  step-Fits all shut r (rests h p) r' e = to _ _ r' (waits [] h true p) e
  step-Fits all takes r (rests h p) r' e = cc
  step-Fits all (resumes i) r (rests h p) r' e = cc
  step-Fits all (fed c) r (waits cs h false p) r' e =
      to _ _ r'
        (waits (cs ++ (c ∷ [])) h false (hash_chunks-append h cs c ∙ ap (λ x. d.update x c) p)) e
  step-Fits all (fed c) r (waits cs h true p) r' e = cc
  step-Fits all shut r (waits cs h false p) r' e = to _ _ r' (waits cs h true p) e
  step-Fits all shut r (waits cs h true p) r' e = cc
  step-Fits all takes r (waits [] h false p) r' e = to _ _ r' (rests h p) e
  step-Fits all takes r (waits [] h true p) r' e = to _ _ r' (done h p) e
  step-Fits all takes r (waits (c ∷ cs) h closed p) r' e =
      to _ _ r' (hashes [] (c ∷ cs) h closed p) e
  step-Fits all (resumes i) r (waits cs h closed p) r' e = cc
  step-Fits all (fed c) r (hashes cs ds h false p) r' e =
      to _ _ r'
        (hashes (cs ++ (c ∷ [])) ds h false
          (hash_chunks-append (hash_chunks d h ds) cs c ∙ ap (λ x. d.update x c) p))
        e
  step-Fits all (fed c) r (hashes cs ds h true p) r' e = cc
  step-Fits all shut r (hashes cs ds h false p) r' e = to _ _ r' (hashes cs ds h true p) e
  step-Fits all shut r (hashes cs ds h true p) r' e = cc
  step-Fits all takes r (hashes cs ds h closed p) r' e = cc
  step-Fits all (resumes zero) r (hashes [] ds h false p) r' e =
      to _ _ r' (rests (hash_chunks d h ds) p) e
  step-Fits all (resumes zero) r (hashes [] ds h true p) r' e =
      to _ _ r' (done (hash_chunks d h ds) p) e
  step-Fits all (resumes zero) r (hashes (c ∷ cs) ds h closed p) r' e =
      to _ _ r' (hashes [] (c ∷ cs) (hash_chunks d h ds) closed p) e
  step-Fits all (resumes (suc i)) r (hashes cs ds h closed p) r' e = cc
  step-Fits all (fed c) r (done h p) r' e = cc
  step-Fits all shut r (done h p) r' e = cc
  step-Fits all takes r (done h p) r' e = cc
  step-Fits all (resumes i) r (done h p) r' e = cc

  -- The digest state after the events, and it is that of their bytes.
  abbrev pub fed_all : d.State → List Event → d.State
  fed_all all [] = all
  fed_all all (e ∷ es) = fed_all (fed_state all e) es

  fed_all-eq : (all : d.State) (es : List Event) → fed_all all es ≡ d.update all (fed_bytes es)
  fed_all-eq all [] = sym (d.nothing all)
  fed_all-eq all (fed c ∷ es) = fed_all-eq (d.update all c) es ∙ d.streaming all c (fed_bytes es)
  fed_all-eq all (shut ∷ es) = fed_all-eq all es
  fed_all-eq all (takes ∷ es) = fed_all-eq all es
  fed_all-eq all (resumes i ∷ es) = fed_all-eq all es

  steps_on-none :
      (es : List Event) (r : Running d.State)
      → Path (Option (Running d.State)) (steps_on d es none) (some r)
      → ⊥
  steps_on-none [] r h = cc
  steps_on-none (e ∷ es) r h = cc

  steps_on-Fits :
      (all : d.State) (es : List Event) (r r' : Running d.State)
      → Fits all r
      → steps_on d es (some r) ≡ some r'
      → Fits (fed_all all es) r'
  steps_on-Fits all [] r r' f h = to all r r' f h
  steps_on-Fits all (e ∷ es) r r' f h = elim (Option-cases (step d e r)) [
    | inl p ↦ absurd (steps_on-none es r' (ap (steps_on d es) (sym p) ∙ h))
    | inr (s, p) ↦
        steps_on-Fits (fed_state all e) es s r' (step-Fits all e r f s p)
          (ap (steps_on d es) (sym p) ∙ h)
  ]

  pub reached-Fits :
      (h : d.State) (es : List Event) (r : Running d.State)
      → steps_on d es (some (new_job d h)) ≡ some r
      → Fits (d.update h (fed_bytes es)) r
  reached-Fits h es r run =
      subst (λ all. Fits all r) (fed_all-eq h es)
        (steps_on-Fits h es (new_job d h) r (rests h refl) run)

  -- Whatever the feed and the workers did in whatever order, no worker panicked, at most one worker
  -- has or will have the job, and a digest that was finalized, one at most, is that of the bytes fed,
  -- in their order.
  pub job_hashed :
      (h : d.State) (es : List Event) (r : Running d.State)
      → steps_on d es (some (new_job d h)) ≡ some r
      → (r.panicked ≡ false)
        × (r.queue + length r.workers ≤ 1)
        × (length r.digests ≤ 1)
        × All (λ x. x ≡ d.update h (fed_bytes es)) r.digests
  job_hashed h es r run = each (d.update h (fed_bytes es)) r (reached-Fits h es r run)
    where
      each :
          (all : d.State) (r : Running d.State)
          → Fits all r
          → (r.panicked ≡ false)
            × (r.queue + length r.workers ≤ 1)
            × (length r.digests ≤ 1)
            × All (λ x. x ≡ all) r.digests
      each all r (rests h p) = (refl, omega arith, omega arith, tt)
      each all r (waits cs h c p) = (refl, omega arith, omega arith, tt)
      each all r (hashes cs ds h c p) = (refl, omega arith, omega arith, tt)
      each all r (done h p) = (refl, omega arith, omega arith, (p, tt))
