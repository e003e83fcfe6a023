-- ===== src/Requests/Polls.antt =====
-- waitForPackageOperation over the responses of the daemon (frontend/kindle/utils.js).
use zen_pm.Prelude.{
  ℕ, ◌<◌, ◌≡◌, ◌≢◌, refl, sym, ◌∙◌, Option, some, Bool, true, false, not, Text, lit, [],
  if◌then◌else◌,
}
use zen_pm.Json.{Json, null, bool, number, array, object, string, is_truthy, get_field}
use zen_pm.Operation.{
  Operation, Reply, operation, nothing, Outcome, resolve, wait_for_package_operation,
}
use zen_pm.Operation.Laws.{PendingFrom, wait_for_package_operation_settles}
use zen_pm.Requests.{
  Exchange, answered, unanswered, resolved, rejected, decode, fetch_json, reply_of, text_of,
  error_message,
}

-- The response is ok, and its body is an object whose `status` is "succeeded".
abbrev pub Succeeds : (Text → Option Json) → Exchange → Type 0
Succeeds parse (unanswered message) = ⊥
Succeeds parse (answered r) =
    (r.is_ok ≡ true) × (get_field (lit "status") (decode parse r.body) ≡ string (lit "succeeded"))

text_of_eq : (j : Json) (t : Text) → text_of j ≡ t → t ≢ [] → j ≡ string t
text_of_eq (string s) t e n = cc
text_of_eq null t e n = absurd (n (sym e))
text_of_eq (bool b) t e n = absurd (n (sym e))
text_of_eq (number z) t e n = absurd (n (sym e))
text_of_eq (array _) t e n = absurd (n (sym e))
text_of_eq (object _) t e n = absurd (n (sym e))

succeeded_ne_nil : lit "succeeded" ≢ []
unfolding lit
succeeded_ne_nil e = cc

module _ (parse : Text → Option Json) (show : Json → Text) where
  reply_of-Succeeds :
      (x : Exchange) (op : Operation)
      → reply_of parse show (fetch_json parse show x) ≡ operation op
      → op.status ≡ lit "succeeded"
      → Succeeds parse x
  unfolding fetch_json reply_of
  reply_of-Succeeds (unanswered message) op e h = cc
  reply_of-Succeeds (answered r) op e h = by_ok r.is_ok refl e
    where
      by_body :
          (b : Bool)
          → (if b
              then operation (record {
                status = text_of (get_field (lit "status") (decode parse r.body));
                error =
                    if is_truthy (get_field (lit "error") (decode parse r.body))
                    then show (get_field (lit "error") (decode parse r.body))
                    else [];
              })
              else nothing)
            ≡ operation op
          → get_field (lit "status") (decode parse r.body) ≡ string (lit "succeeded")
      by_body false e = cc
      by_body true e =
          let same : text_of (get_field (lit "status") (decode parse r.body)) ≡ op.status = cc in
          text_of_eq (get_field (lit "status") (decode parse r.body)) (lit "succeeded") (same ∙ h)
            succeeded_ne_nil

      by_ok :
          (b : Bool)
          → r.is_ok ≡ b
          → reply_of parse show (
              if not b
              then rejected
                  (record { status = some r.status; message = error_message parse show r })
              else resolved (decode parse r.body))
            ≡ operation op
          → Succeeds parse (answered r)
      by_ok false k e = cc
      by_ok true k e = (k, by_body (is_truthy (decode parse r.body)) e)

  -- However the daemon answers, waiting for an operation settles within 360 requests; and where it
  -- resolves, one of them was answered ok, by an object with "succeeded" as its `status`, and those
  -- before it decided nothing.
  pub wait_for_package_operation-Succeeds :
      (responses : ℕ → Exchange)
      → let replies : ℕ → Reply = λ n. reply_of parse show (fetch_json parse show (responses n)) in
        (o : Outcome) × (wait_for_package_operation replies ≡ some o)
        × ((op : Operation)
            → o ≡ resolve op
            → (m : ℕ) × (m < 360) × PendingFrom replies 0 m × Succeeds parse (responses m))
  wait_for_package_operation-Succeeds responses =
      let (o, e, f) =
        wait_for_package_operation_settles
          (λ n. reply_of parse show (fetch_json parse show (responses n))) in
      (
        o,
        e,
        λ op q. (let (m, l, p, r, h) = f op q in (m, l, p, reply_of-Succeeds (responses m) op r h)),
      )
