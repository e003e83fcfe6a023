-- ===== src/Tests/Polling.antt =====
-- Runs of the loop that waits for a package operation.
use zen_pm.Prelude.{ℕ, zero, suc, ◌≡◌, ◌<◌, refl, [], some, lit, arith}
use zen_pm.Operation.{
  Operation, Reply, operation, nothing, failure, Outcome, resolve, error,
  wait_for_package_operation,
}
use zen_pm.Operation.Laws.{
  Decides, give_up, PendingFrom, wait_for_package_operation-Decides,
  wait_for_package_operation-give_up, wait_for_package_operation_settles,
}

abbrev running : Operation
running = record { status = lit "running"; error = [] }

abbrev finished : Operation
finished = record { status = lit "succeeded"; error = [] }

-- The daemon answers nothing once, then "running", then "succeeded".
abbrev replies : ℕ → Reply
replies zero = nothing
replies (suc zero) = operation running
replies _ = operation finished

-- The daemon cannot be reached.
abbrev unreachable : ℕ → Reply
unreachable n = failure (error (lit "TypeError"))

unreachable-PendingFrom : (k n : ℕ) → PendingFrom unreachable k n
unreachable-PendingFrom k zero = tt
unreachable-PendingFrom k (suc n) = ((λ e. cc), unreachable-PendingFrom (suc k) n)

wait_for_package_operation-Decides_example :
    wait_for_package_operation replies ≡ some (resolve finished)
unfolding lit
wait_for_package_operation-Decides_example =
    wait_for_package_operation-Decides 2 replies (resolve finished) (omega arith)
      (tt, (((λ e. cc), (λ e. cc)), tt)) (Decides.succeeded finished refl)

wait_for_package_operation-give_up_example :
    wait_for_package_operation unreachable ≡ some (give_up (unreachable 359))
wait_for_package_operation-give_up_example =
    wait_for_package_operation-give_up unreachable (unreachable-PendingFrom 0 360)

wait_for_package_operation_settles_example :
    (o : Outcome) × (wait_for_package_operation replies ≡ some o)
    × ((op : Operation)
        → o ≡ resolve op
        → (m : ℕ) × (m < 360)
          × PendingFrom replies 0 m
          × (replies m ≡ operation op)
          × (op.status ≡ lit "succeeded"))
wait_for_package_operation_settles_example = wait_for_package_operation_settles replies
