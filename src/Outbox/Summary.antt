-- ===== src/Outbox/Summary.antt =====
-- The counts that a pass over the queue reports.
use kori_backend.Prelude.{
  ◌==◌, ◌∙◌, false, true, suc, inl, Bool-cases, inr, ◌∷◌, [], ◌⊎◌, ◌≤◌, length, Bool, List, arith,
  ◌≡◌, ◌+◌, Option, ℕ, String,
}
use kori_backend.Database.{M-cases, ok, Store, OutboxJob, Env, Failure, Prisma}
use kori_backend.Outbox.{
  batch_size, is_due, candidates, start_processing, is_claimable, process, claim_batch, take_batch,
  run_pending, run_jobs, tally, Outcome, OutboxRunSummary,
}

-- `done`, `failed` and `retrying` together.
abbrev pub settled : OutboxRunSummary → ℕ
settled r = r.done + r.failed + r.retrying

tally-settled :
    (o : Outcome) (r : OutboxRunSummary)
    → (settled (tally o r) ≡ settled r + 1) × ((tally o r).taken ≡ r.taken)
tally-settled Outcome.done r = omega arith
tally-settled Outcome.failed r = omega arith
tally-settled Outcome.retrying r = omega arith

module _ (db : Prisma) (sha256 : String → String) (public_base_url : Option String)
    (message : Failure → String) where
  run_jobs-settled :
      (at : ℕ → Env) (k : ℕ) (js : List OutboxJob) (r r' : OutboxRunSummary) (s s' : Store)
      → run_jobs db sha256 public_base_url message at k js r s ≡ (s', ok r')
      → (settled r' ≡ settled r + length js) × (r'.taken ≡ r.taken)
  unfolding run_jobs
  run_jobs-settled at k [] r r' s s' h = let e : r ≡ r' = cc in rw (← e) (omega arith)
  run_jobs-settled at k (j ∷ js) r r' s s' h =
      elim (M-cases (process db sha256 public_base_url message (at k) j s)) [
        | inr (t, e, p) ↦ let bad = (rw p at h) in cc
        | inl (t, o, p) ↦
            let (total, taken) = run_jobs-settled at (suc k) js (tally o r) r' t s' (rw p at h) in
            let step = tally-settled o r in (omega arith, taken ∙ step.1)
      ]

  take_batch-length :
      (cs js : List OutboxJob) (s s' : Store)
      → take_batch db sha256 public_base_url message cs s ≡ (s', ok js)
      → (js ≡ cs) ⊎ (js ≡ [])
  unfolding take_batch
  take_batch-length [] js s s' h = inr cc
  take_batch-length (c ∷ cs) js s s' h =
      elim (Bool-cases (
        (db.outbox_job.update_many (is_claimable (c ∷ cs)) start_processing s.jobs).1
        == length (c ∷ cs))) [
          | inl e ↦ inl (let h' = (rw e at h) in cc)
          | inr e ↦ inr (let h' = (rw e at h) in cc)
        ]

  candidates-length :
      (env : Env) (s : Store) → length (candidates db sha256 public_base_url message env s) ≤ 10
  candidates-length env s =
      db.outbox_job.find_many_length (is_due env.now) (λ j. j.next_attempt_at) batch_size s.jobs

  claim_batch-length :
      (env : Env) (js : List OutboxJob) (s s' : Store)
      → claim_batch db sha256 public_base_url message env s ≡ (s', ok js)
      → length js ≤ 10
  unfolding claim_batch
  claim_batch-length env js s s' h =
      elim (take_batch-length (candidates db sha256 public_base_url message env s) js s s' h) [
        | inl e ↦ rw e (candidates-length env s)
        | inr e ↦ rw e (omega arith)
      ]

  -- A pass over the queue that ends without an exception accounts for every job that it took, as
  -- done, failed or to be retried, and takes at most ten.
  pub run_pending_accounts :
      (at : ℕ → Env) (running : Bool) (r : OutboxRunSummary) (s s' : Store)
      → run_pending db sha256 public_base_url message at running s ≡ (s', ok r)
      → (r.taken ≡ r.done + r.failed + r.retrying) × (r.taken ≤ 10)
  unfolding run_pending
  run_pending_accounts at true r s s' h = ground arith
  run_pending_accounts at false r s s' h =
      elim (M-cases (claim_batch db sha256 public_base_url message (at 0) s)) [
        | inr (t, e, p) ↦ let bad = (rw p at h) in cc
        | inl (t, js, p) ↦
            let start : OutboxRunSummary = record {
              taken = length js;
              done = 0;
              failed = 0;
              retrying = 0;
            } in
            let (total, taken) = run_jobs-settled at 1 js start r t s' (rw p at h) in
            let few = claim_batch-length (at 0) js s t p in (omega arith, omega arith)
      ]
