-- ===== src/Operation/Laws.antt =====
-- Lemmas on the loop of `waitForPackageOperation` (frontend/kindle/utils.js).
use zen_pm.Prelude.{
  ℕ, zero, suc, ◌+◌, ◌≤◌, ◌<◌, ◌≡◌, ◌≢◌, ◌⊎◌, inl, inr, refl, ◌∙◌, Option, none, some, false,
  Bool-cases, ===_sound, lit, ◌===◌, ===_iff, ===_refl, ◌==◌, ◌or◌, arith,
}
use native.Mathlib.Nat.{add-zero, zero-add}
use zen_pm.Operation.{
  Operation, Failure, Reply, operation, nothing, failure, Outcome, resolve, reject, error, poll,
  settled, again, wait_from, wait_for_package_operation,
}

-- A reply that decides the operation, and what it decides.
pub data Decides : Reply → Outcome → Type 0 where
  succeeded : (op : Operation) → op.status ≡ lit "succeeded" → Decides (operation op) (resolve op)
  failed :
      (op : Operation)
      → op.status ≡ lit "failed"
      → Decides (operation op) (reject (error (op.error or lit "Package operation failed.")))
  missing : (err : Failure) → err.status ≡ some 404 → Decides (failure err) (reject err)

-- A reply that decides nothing: the operation is under way, or the request went wrong.
abbrev pub IsPending : Reply → Type 0
IsPending (operation op) = (op.status ≢ lit "succeeded") × (op.status ≢ lit "failed")
IsPending nothing = Unit
IsPending (failure err) = err.status ≢ some 404

-- What the loop gives up with after the last request.
abbrev pub give_up : Reply → Outcome
give_up (operation op) = reject (error (lit "Package operation did not complete."))
give_up nothing = reject (error (lit "Package operation did not complete."))
give_up (failure err) = reject err

failed_ne_succeeded : (lit "failed" === lit "succeeded") ≡ false
unfolding lit ◌===◌
failed_ne_succeeded = refl

poll-Decides : (attempts : ℕ) (r : Reply) (o : Outcome) → Decides r o → poll attempts r ≡ settled o
unfolding poll
poll-Decides attempts r o (succeeded op e) = rw ((===_iff op.status (lit "succeeded")).1 e)
poll-Decides attempts r o (failed op e) = rw (e, failed_ne_succeeded, ===_refl (lit "failed"))
poll-Decides attempts r o (missing err e) = ground arith

poll-IsPending : (attempts : ℕ) (r : Reply) → IsPending r → attempts < 360 → poll attempts r ≡ again
unfolding poll
poll-IsPending attempts (operation op) (p, q) l =
    ground (arith, ===_iff op.status (lit "succeeded"), ===_iff op.status (lit "failed"))
poll-IsPending attempts nothing h l = ground arith
poll-IsPending attempts (failure err) h l = ground arith

poll_last : (r : Reply) → IsPending r → poll 360 r ≡ settled (give_up r)
unfolding poll
poll_last (operation op) (p, q) =
    ground (arith, ===_iff op.status (lit "succeeded"), ===_iff op.status (lit "failed"))
poll_last nothing h = ground arith
poll_last (failure err) h = ground arith

pub IsPending-or_Decides : (r : Reply) → IsPending r ⊎ ((o : Outcome) × Decides r o)
IsPending-or_Decides (operation op) = elim (Bool-cases (op.status === lit "succeeded")) [
  | inl yes' ↦ inr (resolve op, succeeded op (===_sound _ _ yes'))
  | inr no' ↦ elim (Bool-cases (op.status === lit "failed")) [
    | inl failing ↦ inr (_, failed op (===_sound _ _ failing))
    | inr neither ↦ inl (
      ground (arith, ===_iff op.status (lit "succeeded")),
      ground (arith, ===_iff op.status (lit "failed")),
    )
  ]
]
IsPending-or_Decides nothing = inl tt
IsPending-or_Decides (failure err) = elim (is_404_cases err.status) [
  | inl missed ↦ inr (_, missing err missed)
  | inr other ↦ inl other
]
  where
    is_404_cases : (s : Option ℕ) → (s ≡ some 404) ⊎ (s ≢ some 404)
    is_404_cases none = inr (λ e. cc)
    is_404_cases (some n) = elim (Bool-cases (n == 404)) [
      | inl same ↦ inl (ground arith)
      | inr other ↦ inr (λ e. ground arith)
    ]

-- The replies from number `k` on, `n` of them, are pending.
abbrev pub PendingFrom : (ℕ → Reply) → ℕ → ℕ → Type 0
PendingFrom replies k zero = Unit
PendingFrom replies k (suc n) = IsPending (replies k) × PendingFrom replies (suc k) n

wait_from-settled :
    (fuel k : ℕ) (replies : ℕ → Reply) {o : Outcome}
    → poll (suc k) (replies k) ≡ settled o
    → wait_from (suc fuel) k replies ≡ some o
unfolding wait_from
wait_from-settled fuel k replies e = rw (e, wait_from)

wait_from_again :
    (fuel k : ℕ) (replies : ℕ → Reply)
    → poll (suc k) (replies k) ≡ again
    → wait_from (suc fuel) k replies ≡ wait_from fuel (suc k) replies
unfolding wait_from
wait_from_again fuel k replies e = rw (e, wait_from)

wait_from-Decides :
    (n fuel k : ℕ) (replies : ℕ → Reply) (o : Outcome)
    → n < fuel
    → fuel + k ≤ 360
    → PendingFrom replies k n
    → Decides (replies (n + k)) o
    → wait_from fuel k replies ≡ some o
wait_from-Decides n zero k replies o l b p d = elim l [ ]
wait_from-Decides zero (suc fuel) k replies o l b p d =
    wait_from-settled fuel k replies (poll-Decides (suc k) (replies k) o (rw zero-add at d))
wait_from-Decides (suc n) (suc fuel) k replies o l b (p, ps) d =
    wait_from_again fuel k replies (poll-IsPending (suc k) (replies k) p (omega arith))
    ∙ (wait_from-Decides n fuel (suc k) replies o (omega arith) (omega arith) ps
        (rw (let e : suc n + k ≡ n + suc k = omega arith in e) at d))

wait_from-give_up :
    (fuel k : ℕ) (replies : ℕ → Reply)
    → suc fuel + k ≡ 360
    → PendingFrom replies k (suc fuel)
    → wait_from (suc fuel) k replies ≡ some (give_up (replies 359))
wait_from-give_up zero k replies b (p, _) =
    let e : k ≡ 359 = omega arith in
    rw e (wait_from-settled 0 359 replies (poll_last (replies 359) (rw e at p)))
wait_from-give_up (suc fuel) k replies b (p, ps) =
    wait_from_again (suc fuel) k replies (poll-IsPending (suc k) (replies k) p (omega arith))
    ∙ (wait_from-give_up fuel (suc k) replies (omega arith) ps)

-- The first of the 360 replies that decides, which all before it left pending, settles the
-- promise, and as it decides: resolved by "succeeded", rejected by "failed" or by a 404.
pub wait_for_package_operation-Decides :
    (n : ℕ) (replies : ℕ → Reply) (o : Outcome)
    → n < 360
    → PendingFrom replies 0 n
    → Decides (replies n) o
    → wait_for_package_operation replies ≡ some o
unfolding wait_for_package_operation
wait_for_package_operation-Decides n replies o l p d =
    wait_from-Decides n 360 0 replies o l (omega arith) p (rw add-zero d)

-- Where all 360 replies leave it pending, the promise is rejected: with the last error where the
-- last request went wrong, else as not complete. There is no request number 361.
pub wait_for_package_operation-give_up :
    (replies : ℕ → Reply)
    → PendingFrom replies 0 360
    → wait_for_package_operation replies ≡ some (give_up (replies 359))
unfolding wait_for_package_operation
wait_for_package_operation-give_up replies p = wait_from-give_up 359 0 replies (omega arith) p

-- How the loop may end.
first_decision :
    (n k : ℕ) (replies : ℕ → Reply)
    → PendingFrom replies k n
      ⊎ ((m : ℕ) × (o : Outcome) × (m < n) × PendingFrom replies k m × Decides (replies (m + k)) o)
first_decision zero k replies = inl tt
first_decision (suc n) k replies = elim (IsPending-or_Decides (replies k)) [
  | inr (o, d) ↦ inr (0, o, omega arith, tt, rw zero-add d)
  | inl p ↦ elim (first_decision n (suc k) replies) [
    | inl ps ↦ inl (p, ps)
    | inr (m, o, l, ps, d) ↦
        inr
          (suc m, o, omega arith, (p, ps), rw (let e : suc m + k ≡ m + suc k = omega arith in e) d)
  ]
]

-- Whatever the daemon answers, the promise settles; and it is resolved only by a reply "succeeded"
-- among the first 360, before which nothing was decided.
pub wait_for_package_operation_settles :
    (replies : ℕ → Reply)
    → (o : Outcome) × (wait_for_package_operation replies ≡ some o)
      × ((op : Operation)
          → o ≡ resolve op
          → (m : ℕ) × (m < 360)
            × PendingFrom replies 0 m
            × (replies m ≡ operation op)
            × (op.status ≡ lit "succeeded"))
wait_for_package_operation_settles replies = elim (first_decision 360 0 replies) [
  | inl p ↦ (
    give_up (replies 359),
    wait_for_package_operation-give_up replies p,
    λ op e. absurd (give_up-ne-resolve (replies 359) op e),
  )
  | inr (m, o, l, p, d) ↦
      let d' = rw add-zero at d in
      (
        o,
        wait_for_package_operation-Decides m replies o l p d',
        λ op e. (let (a, b) = resolved (replies m) o op d' e in (m, l, p, a, b)),
      )
]
  where
    give_up-ne-resolve : (r : Reply) (op : Operation) → give_up r ≡ resolve op → ⊥
    give_up-ne-resolve (operation _) op e = cc
    give_up-ne-resolve nothing op e = cc
    give_up-ne-resolve (failure _) op e = cc

    resolved :
        (r : Reply) (o : Outcome) (op : Operation)
        → Decides r o
        → o ≡ resolve op
        → (r ≡ operation op) × (op.status ≡ lit "succeeded")
    resolved r o op (succeeded op' h) e = (cc, cc)
    resolved r o op (failed op' h) e = cc
    resolved r o op (missing err h) e = cc
