-- ===== src/Outbox/Claims.antt =====
-- Two instances that claim the same jobs.
use mathlib.Core.Path.{subst}
use kori_backend.Outbox.{start_processing, is_claimable, take_batch}
use kori_backend.Prelude.{
  ap, update_where-none, sym, count_where-none, arith, All-after_update, ◌==◌, refl, length,
  any-false, ◌<◌, if◌then◌else◌, false, [], ◌≡◌, ◌∷◌, update_where, count_where, any, List, Option,
  String,
}
use kori_backend.Database.{ok, Store, OutboxJob, Failure, Prisma}

module _ (db : Prisma) (sha256 : String → String) (public_base_url : Option String)
    (message : Failure → String) where
  -- The jobs after a claim.
  abbrev taken : List OutboxJob → Store → Store
  taken cs s = record s { jobs = update_where (is_claimable cs) start_processing s.jobs }

  take_batch-eq :
      (c : OutboxJob) (cs : List OutboxJob) (s : Store)
      → take_batch db sha256 public_base_url message (c ∷ cs) s ≡ (
        taken (c ∷ cs) s,
        ok (if count_where (is_claimable (c ∷ cs)) s.jobs == length (c ∷ cs) then c ∷ cs else []),
      )
  unfolding take_batch
  take_batch-eq c cs s =
      rw
        (db.outbox_job.update_many_lem (is_claimable (c ∷ cs)) start_processing s.jobs
          (λ r o. ((λ e. e), (λ e. e))))
        refl

  none_claimable :
      (cs : List OutboxJob) (s : Store) → any (is_claimable cs) (taken cs s).jobs ≡ false
  none_claimable cs s = any-false (is_claimable cs) (taken cs s).jobs (
      All-after_update (λ j. is_claimable cs j ≡ false) (is_claimable cs) start_processing s.jobs
        (λ j a. ground arith) (λ j a. a))

  second_claim :
      (c : OutboxJob) (cs : List OutboxJob) (s : Store)
      → take_batch db sha256 public_base_url message (c ∷ cs) (taken (c ∷ cs) s)
        ≡ (taken (c ∷ cs) s, ok [])
  second_claim c cs s =
      let left = none_claimable (c ∷ cs) s in
      let zero_apart : 0 == length (c ∷ cs) ≡ false = ground arith in
      rw take_batch-eq (
        rw (count_where-none (is_claimable (c ∷ cs)) (taken (c ∷ cs) s).jobs left) (
          rw
            (update_where-none (is_claimable (c ∷ cs)) start_processing (taken (c ∷ cs) s).jobs
              left)
            (rw zero_apart refl)))

  -- Of two instances that read the same due jobs, the one that claims second gets none of them and
  -- changes nothing.
  pub second_claim_empty :
      (cs : List OutboxJob) (s : Store)
      → (let s' = (take_batch db sha256 public_base_url message cs s).0 in
          take_batch db sha256 public_base_url message cs s' ≡ (s', ok []))
  unfolding take_batch
  second_claim_empty [] s = refl
  second_claim_empty (c ∷ cs) s =
      subst (λ s'. take_batch db sha256 public_base_url message (c ∷ cs) s' ≡ (s', ok []))
        (sym (ap (λ r. r.0) (take_batch-eq c cs s))) (second_claim c cs s)

  -- A claim that finds fewer jobs pending than it read returns no job to work on, and still leaves
  -- none of those jobs in the state that a later claim takes.
  pub lost_claim_strands :
      (c : OutboxJob) (cs : List OutboxJob) (s : Store)
      → count_where (is_claimable (c ∷ cs)) s.jobs < length (c ∷ cs)
      → (s' : Store) × (take_batch db sha256 public_base_url message (c ∷ cs) s ≡ (s', ok []))
        × (any (is_claimable (c ∷ cs)) s'.jobs ≡ false)
  lost_claim_strands c cs s h =
      let fewer : count_where (is_claimable (c ∷ cs)) s.jobs == length (c ∷ cs) ≡ false =
        ground arith in
      (taken (c ∷ cs) s, rw (take_batch-eq c cs s) (rw fewer refl), none_claimable (c ∷ cs) s)
