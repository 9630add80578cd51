-- ===== src/Reconciler/Run.antt =====
-- services/outbox-reconciler.ts: the constructor's guards, and the loop of sweeps, which ends with
-- the signal or with the first error of a sweep.
use hayasend.Base.{
  ℕ, zero, suc, ◌+◌, ◌≤◌, ◌≡◌, refl, String, Bool, true, false, not, List, [], ◌++◌, Option, none,
  some, Result, ok, err, ◌>>◌, refuse_if, if◌then◌else◌, ltb, nat_beq, arith, true-ne-false, sym,
  ◌∙◌, owner_not_opaque, lease_not_positive, batch_out_of_range, interval_not_positive,
}
use hayasend.Store.Outbox.{opaque_owner}
use hayasend.Reconciler.{DeliveryOutboxStore, Environment, SendEmailJob, OutboxSweepResult, sweep}

unfoldable pub or_default : Option ℕ → ℕ → ℕ
or_default none n = n
or_default (some m) n = m

-- The fields of a reconciler.
pub record OutboxReconciler : Type 0 where
  pub owner : String
  pub lease_seconds : ℕ
  pub batch_size : ℕ

unfoldable pub outbox_reconciler : String → Option ℕ → Option ℕ → Result OutboxReconciler
outbox_reconciler owner lease_seconds batch_size =
    refuse_if (not (opaque_owner owner)) owner_not_opaque
    >> (refuse_if (nat_beq (or_default lease_seconds 60) 0) lease_not_positive
        >> (refuse_if (nat_beq (or_default batch_size 100) 0) batch_out_of_range
            >> (refuse_if (ltb 1000 (or_default batch_size 100)) batch_out_of_range
                >> ok (record {
                  owner = owner;
                  lease_seconds = or_default lease_seconds 60;
                  batch_size = or_default batch_size 100;
                }))))

-- What a run is given: `aborted` is the n-th reading of `signal.aborted`, `clock` the time of the
-- n-th sweep and `rounds` what its queue and its hook do; `meanwhile` is what other writers do to
-- the store while the run waits.
pub record RunEnvironment (S : Type 0) : Type 0 where
  pub aborted : ℕ → Bool
  pub clock : ℕ → ℕ
  pub rounds : ℕ → Environment
  pub meanwhile : ℕ → S → S

module _ {S : Type 0} (store : DeliveryOutboxStore S) (r : OutboxReconciler)
    (env : RunEnvironment S) where
  -- How a run ends, with the jobs that it has queued and the store.
  abbrev pub Ended : Type 0
  Ended = Result (Unit {0}) × (List SendEmailJob × S)

  -- After the n-th sweep, the signal is read before a wait and again by the loop.
  unfoldable pub after_sweep :
      (ℕ → ℕ → List SendEmailJob → S → Option Ended)
      → ℕ
      → ℕ
      → List SendEmailJob
      → Result OutboxSweepResult × (List SendEmailJob × S)
      → Option Ended
  after_sweep further read n queued (err e, (jobs, s)) = some (err e, (jobs ++ queued, s))
  after_sweep further read n queued (ok _, (jobs, s)) =
      further (read + 2) (n + 1) (jobs ++ queued)
        (if env.aborted (read + 1) then s else env.meanwhile n s)

  -- `none` where the fuel, the number of rounds, is at its end.
  unfoldable pub run_rounds : ℕ → ℕ → ℕ → List SendEmailJob → S → Option Ended
  run_rounds zero read n queued s = none
  run_rounds (suc fuel) read n queued s =
      let round =
        after_sweep (λ read' n' queued' s'. run_rounds fuel read' n' queued' s') read n queued
          (sweep store (env.rounds n) r.owner (env.clock n) r.lease_seconds r.batch_size s) in
      if env.aborted read then some (ok tt, (queued, s)) else round

  unfoldable pub run : ℕ → Option ℕ → S → Option Ended
  run fuel interval_ms s = elim (nat_beq (or_default interval_ms 1000) 0) [
    | true ↦ some (err interval_not_positive, ([], s))
    | false ↦ run_rounds fuel 0 0 [] s
  ]

  abbrev pub Ends : Option Ended → Type 0
  Ends o = (out : Ended) × (o ≡ some out)

  after_sweep-Ends :
      (further : ℕ → ℕ → List SendEmailJob → S → Option Ended) (read n : ℕ)
      (queued : List SendEmailJob) (swept : Result OutboxSweepResult × (List SendEmailJob × S))
      → ((m : ℕ) (jobs : List SendEmailJob) (s : S) → Ends (further (read + 2) m jobs s))
      → Ends (after_sweep further read n queued swept)
  unfolding after_sweep
  after_sweep-Ends further read n queued (err e, (jobs, s)) h = ((err e, (jobs ++ queued, s)), refl)
  after_sweep-Ends further read n queued (ok x, (jobs, s)) h = h (n + 1) (jobs ++ queued) _

  round-Ends :
      (aborted : Bool) (now further : Option Ended)
      → Ends now
      → (aborted ≡ false → Ends further)
      → Ends (if aborted then now else further)
  round-Ends true now further h k = h
  round-Ends false now further h k = k refl

  run_rounds-Ends :
      (fuel read n last : ℕ) (queued : List SendEmailJob) (s : S)
      → ((m : ℕ) → last ≤ m → env.aborted m ≡ true)
      → last ≤ read + fuel
      → Ends (run_rounds (suc fuel) read n queued s)
  unfolding run_rounds
  run_rounds-Ends zero read n last queued s aborted enough =
      round-Ends (env.aborted read) (some (ok tt, (queued, s))) _ ((ok tt, (queued, s)), refl)
        λ going. absurd (true-ne-false (sym (aborted read (omega (arith, enough))) ∙ going))
  run_rounds-Ends (suc fuel) read n last queued s aborted enough =
      round-Ends (env.aborted read) (some (ok tt, (queued, s))) _ ((ok tt, (queued, s)), refl)
        λ going.
          after_sweep-Ends (λ read' n' queued' s'. run_rounds (suc fuel) read' n' queued' s') read n
            queued (sweep store (env.rounds n) r.owner (env.clock n) r.lease_seconds r.batch_size s)
            λ m jobs s'.
              run_rounds-Ends fuel (read + 2) m last jobs s' aborted (omega (arith, enough))

  -- A run ends where the signal stays aborted from some reading on: that many rounds and one more are
  -- enough, whatever the sweeps give and whatever others do to the store.
  pub run-Ends :
      (interval_ms : Option ℕ) (last : ℕ) (s : S)
      → ((m : ℕ) → last ≤ m → env.aborted m ≡ true)
      → Ends (run (suc last) interval_ms s)
  unfolding run
  run-Ends interval_ms last s aborted = interval_ends (nat_beq (or_default interval_ms 1000) 0)
    where
      interval_ends :
          (refused : Bool)
          → Ends (elim refused [
            | true ↦ some (err interval_not_positive, ([], s))
            | false ↦ run_rounds (suc last) 0 0 [] s
          ])
      interval_ends true = ((err interval_not_positive, ([], s)), refl)
      interval_ends false = run_rounds-Ends last 0 0 last [] s aborted (omega arith)
