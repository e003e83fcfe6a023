-- ===== src/Operation.antt =====
-- `waitForPackageOperation` of frontend/kindle/utils.js: poll the daemon until the operation has
-- succeeded or failed, 360 times at most. A request is taken to settle, one way or the other; the
-- delay of 3500 ms between two requests is left out.
pub mod Laws
use zen_pm.Prelude.{
  ℕ, zero, suc, ◌+◌, ◌≡◌, Option, none, some, Bool, false, Text, lit, ◌===◌, ◌==◌, leb,
  if◌then◌else◌, ◌or◌,
}

-- The body of a response, where it is truthy. A property that is missing counts as the empty text.
pub record Operation : Type 0 where
  pub status : Text
  pub error : Text

-- An `Error`, with the property `status` of a response that was not ok.
pub record Failure : Type 0 where
  pub status : Option ℕ
  pub message : Text

-- How one request of the loop settles.
pub data Reply : Type 0 where
  operation : Operation → Reply
  nothing : Reply  -- a body that is null, "" or another falsy value
  failure : Failure → Reply

-- How the promise settles.
pub data Outcome : Type 0 where
  resolve : Operation → Outcome
  reject : Failure → Outcome

-- `new Error(message)`
abbrev pub error : Text → Failure
error message = record { status = none; message = message }

unfoldable pub max_polls : ℕ
max_polls = 360

-- The promise settles, or `setTimeout(poll, 3500)`.
pub data Poll : Type 0 where
  settled : Outcome → Poll
  again : Poll

abbrev is_404 : Option ℕ → Bool
is_404 none = false
is_404 (some status) = status == 404

abbrev not_complete : Failure
not_complete = error (lit "Package operation did not complete.")

-- The handlers of one request, `attempts` being the number of requests made.
unfoldable pub poll : ℕ → Reply → Poll
unfolding max_polls
poll attempts (operation op) =
    if op.status === lit "succeeded"
    then settled (resolve op)
    else if op.status === lit "failed"
    then settled (reject (error (op.error or lit "Package operation failed.")))
    else if leb max_polls attempts
    then settled (reject not_complete)
    else again
poll attempts nothing = if leb max_polls attempts then settled (reject not_complete) else again
poll attempts (failure err) =
    if is_404 err.status
    then settled (reject err)
    else if leb max_polls attempts
    then settled (reject err)
    else again

-- The loop, after `attempts` requests; `replies n` is how request `n` settles, counted from 0.
-- `none` is what is left when the fuel is out.
unfoldable pub wait_from : ℕ → ℕ → (ℕ → Reply) → Option Outcome
unfolding poll
wait_from zero attempts replies = none
wait_from (suc fuel) attempts replies = elim (poll (suc attempts) (replies attempts)) [
  | settled outcome ↦ some outcome
  | again ↦ wait_from fuel (suc attempts) replies
]

unfoldable pub wait_for_package_operation : (ℕ → Reply) → Option Outcome
unfolding wait_from
wait_for_package_operation replies = wait_from 360 0 replies
