-- ===== src/Tests/Requesting.antt =====
-- Runs of the requests to the daemon.
use zen_pm.Prelude.{
  ℕ, zero, suc, ◌<◌, ◌≡◌, [], Option, none, some, true, Text, lit, ◌===◌, if◌then◌else◌, arith,
}
use zen_pm.Json.{Json, string, object, field, no_fields}
use zen_pm.Operation.{Operation, Reply, Outcome, resolve, wait_for_package_operation}
use zen_pm.Operation.Laws.{PendingFrom}
use zen_pm.Session.{reinstall}
use zen_pm.Session.Actions.{action_path}
use zen_pm.Requests.{
  Exchange, answered, unanswered, fetch_json, reply_of, is_package_action_request,
}
use zen_pm.Requests.Polls.{Succeeds, wait_for_package_operation-Succeeds}
use zen_pm.Requests.Logged.{is_recognised, is_package_action_request-action_path}
use zen_pm.Tests.Samples.{encode, clock}

-- A parser that knows one text.
abbrev parse : Text → Option Json
parse t =
    if t === lit "{}"
    then some (object (field (lit "status") (string (lit "succeeded")) no_fields))
    else none

abbrev show : Json → Text
show json = lit "?"

-- The daemon cannot be reached at first.
abbrev responses : ℕ → Exchange
responses zero = unanswered (lit "TypeError")
responses (suc n) = answered (record { status = 200; is_ok = true; body = lit "{}" })

wait_for_package_operation-Succeeds_example :
    let replies : ℕ → Reply = λ n. reply_of parse show (fetch_json parse show (responses n)) in
    (o : Outcome) × (wait_for_package_operation replies ≡ some o)
    × ((op : Operation)
        → o ≡ resolve op
        → (m : ℕ) × (m < 360) × PendingFrom replies 0 m × Succeeds parse (responses m))
wait_for_package_operation-Succeeds_example =
    wait_for_package_operation-Succeeds parse show responses

is_package_action_request-action_path_example :
    is_package_action_request (lit "POST") (action_path encode clock reinstall [])
    ≡ is_recognised reinstall
unfolding lit
is_package_action_request-action_path_example =
    is_package_action_request-action_path encode clock reinstall [] (λ e. cc)
      (
        (λ e. omega arith),
        ((λ e. omega arith), ((λ e. omega arith), ((λ e. omega arith), ((λ e. omega arith), tt)))),
      )
