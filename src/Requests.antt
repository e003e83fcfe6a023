-- ===== src/Requests.antt =====
-- Requests to the daemon: fetchJSON, fetchText and isPackageActionRequest of frontend/kindle/utils.js.
-- `parse` is JSON.parse, with `none` where it throws, and `show` is String of a parsed value. A
-- request whose body cannot be read to its end counts as one without a response.
pub mod Polls
pub mod Logged
use zen_pm.Prelude.{
  ℕ, [], ◌∷◌, ◌++◌, Option, none, some, Bool, true, false, ◌&&◌, not, Text, lit, ◌===◌, ◌==◌, ◌||◌,
  if◌then◌else◌, truthy,
}
use zen_pm.Strings.{starts_with, drop}
use zen_pm.Decimal.{to_text}
use zen_pm.Json.{Json, string, is_truthy, get_field}
use zen_pm.Operation.{Operation, Failure, Reply, operation, nothing, failure}

pub record Response : Type 0 where
  pub status : ℕ
  pub is_ok : Bool  -- resp.ok
  pub body : Text

-- How `fetch` settles.
pub data Exchange : Type 0 where
  answered : Response → Exchange
  unanswered : (message : Text) → Exchange

pub data Settled (A : Type 0) : Type 0 where
  resolved : A → Settled A
  rejected : Failure → Settled A

unfoldable pub http_message : Response → Text
http_message r =
    lit "HTTP " ++ (to_text r.status ++ (if truthy r.body then lit ": " ++ r.body else []))

-- the parsed body, or the text itself where it does not parse
unfoldable pub decode : (Text → Option Json) → Text → Json
decode parse body = elim (parse body) [ none ↦ string body | some parsed ↦ parsed ]

abbrev pub text_of : Json → Text
text_of (string s) = s
text_of _ = []

module _ (parse : Text → Option Json) (show : Json → Text) where
  -- the message of a response that is not ok
  unfoldable pub error_message : Response → Text
  unfolding http_message
  error_message r = elim (parse r.body) [
    | none ↦ http_message r
    | some parsed ↦
        (let err = get_field (lit "error") parsed in
          if is_truthy err then show err else http_message r)
  ]

  unfoldable pub fetch_json : Exchange → Settled Json
  unfolding error_message decode
  fetch_json (unanswered message) = rejected (record { status = none; message = message })
  fetch_json (answered r) =
      if not r.is_ok
      then rejected (record { status = some r.status; message = error_message r })
      else resolved (decode parse r.body)

  -- What waitForPackageOperation reads of how the request settles.
  unfoldable pub reply_of : Settled Json → Reply
  reply_of (rejected err) = failure err
  reply_of (resolved body) =
      let err = get_field (lit "error") body in
      if is_truthy body
      then operation (record {
        status = text_of (get_field (lit "status") body);
        error = if is_truthy err then show err else [];
      })
      else nothing

unfoldable pub fetch_text : Exchange → Settled Text
fetch_text (unanswered message) = rejected (record { status = none; message = message })
fetch_text (answered r) =
    if not r.is_ok
    then rejected (record { status = none; message = lit "HTTP " ++ to_text r.status })
    else resolved r.body

-- `promise.then(onSuccess, onError)`
abbrev then_call : {A B : Type 0} → (A → B) → (Failure → B) → Settled A → B
then_call on_success on_error (resolved a) = on_success a
then_call on_success on_error (rejected err) = on_error err

-- xhrJSON and xhrText: which of the two functions is called, and with what
unfoldable pub xhr_json :
    {B : Type 0} → (Text → Option Json) → (Json → Text) → (Json → B) → (Failure → B) → Exchange → B
unfolding fetch_json
xhr_json parse show on_success on_error e = then_call on_success on_error (fetch_json parse show e)

unfoldable pub xhr_text : {B : Type 0} → (Text → B) → (Failure → B) → Exchange → B
unfolding fetch_text
xhr_text on_success on_error e = then_call on_success on_error (fetch_text e)

-- What stands after the characters of a path up to the next "/", where there is at least one.
unfoldable pub after_segment : Text → Option Text
after_segment [] = none
after_segment (c ∷ s) = if c == b'/' then some s else after_segment s

-- `(install|uninstall)(\?|$)` at the start of a text
unfoldable pub is_action : Text → Bool
is_action s =
    s === lit "install"
    || s === lit "uninstall"
    || starts_with (lit "install?") s
    || starts_with (lit "uninstall?") s

abbrev pub begins_with_action : Option Text → Bool
begins_with_action none = false
begins_with_action (some s) = is_action s

-- `[^\/]+\/` and the action
abbrev pub is_segment_action : Text → Bool
is_segment_action [] = false
is_segment_action (c ∷ s) = if c == b'/' then false else begins_with_action (after_segment (c ∷ s))

unfoldable pub is_package_action_request : Text → Text → Bool
unfolding is_action after_segment
is_package_action_request method path =
    method === lit "POST"
    && (starts_with (lit "/packages/") path && is_segment_action (drop 10 path))
