-- ===== src/Requests/Logged.antt =====
-- Which requests isPackageActionRequest of frontend/kindle/utils.js has written to the log.
use zen_pm.Prelude.{
  ◌≡◌, ◌≢◌, refl, ◌∙◌, Bool-cases, inl, inr, [], ◌∷◌, ◌++◌, some, Bool, true, false, Text, lit,
  ◌===◌, truthy, arith,
}
use mathlib.Core.List.{append_assoc}
use zen_pm.Strings.{starts_with, drop}
use zen_pm.Strings.Laws.{Without}
use zen_pm.Package.{Package}
use zen_pm.Session.{Action, install, reinstall, uninstall}
use zen_pm.Session.Actions.{action_path, action_text}
use zen_pm.Requests.{is_package_action_request, is_segment_action, after_segment, is_action}

-- Whether the request of an action is recognised: `reinstall` is not.
abbrev pub is_recognised : Action → Bool
is_recognised install = true
is_recognised reinstall = false
is_recognised uninstall = true

after_segment-append : (s t : Text) → Without b'/' s → after_segment (s ++ (b'/' ∷ t)) ≡ some t
unfolding after_segment
after_segment-append [] t h = ground arith
after_segment-append (c ∷ s) t (p, h) = ground (arith, after_segment-append s t h)

is_segment_action-append :
    (s t : Text) → s ≢ [] → Without b'/' s → is_segment_action (s ++ (b'/' ∷ t)) ≡ is_action t
is_segment_action-append [] t n h = absurd (n refl)
is_segment_action-append (c ∷ s) t n (p, h) =
    rw (after_segment-append (c ∷ s) t (p, h)) (ground (arith, p))

is_action-action_text : (action : Action) → is_action (action_text action) ≡ is_recognised action
unfolding is_action action_text lit ◌===◌ starts_with
is_action-action_text install = refl
is_action-action_text reinstall = refl
is_action-action_text uninstall = refl

is_action-asset :
    (action : Action) (t : Text)
    → is_action (action_text action ++ (lit "?asset=" ++ t)) ≡ is_recognised action
unfolding is_action action_text lit ◌===◌ starts_with
is_action-asset install t = refl
is_action-asset reinstall t = refl
is_action-asset uninstall t = refl

is_package_action_request-path :
    (t : Text)
    → is_package_action_request (lit "POST") (lit "/packages/" ++ t) ≡ is_segment_action t
unfolding is_package_action_request lit ◌===◌ starts_with drop
is_package_action_request-path t = refl

slash : lit "/" ≡ b'/' ∷ []
unfolding lit
slash = refl

-- Where the id of the package is encoded by a text that is not empty and has no slash, the request
-- that a page sends for an action is recognised exactly if the action is not `reinstall`, with a
-- build chosen or without.
pub is_package_action_request-action_path :
    (encode : Text → Text) (pkg : Package) (action : Action) (asset : Text)
    → encode pkg.id ≢ []
    → Without b'/' (encode pkg.id)
    → is_package_action_request (lit "POST") (action_path encode pkg action asset)
      ≡ is_recognised action
unfolding action_path
is_package_action_request-action_path encode pkg action asset n h =
    elim (Bool-cases (truthy asset)) [
      | inl chosen ↦ rw chosen (
          rw
            (
              append_assoc (lit "/packages/") (encode pkg.id ++ (lit "/" ++ action_text action))
                  (lit "?asset=" ++ encode asset),
              append_assoc (encode pkg.id) (lit "/" ++ action_text action)
                  (lit "?asset=" ++ encode asset),
            )
            (is_package_action_request-path _
              ∙ rw slash (
                  is_segment_action-append (encode pkg.id)
                    (action_text action ++ (lit "?asset=" ++ encode asset)) n h)
              ∙ is_action-asset action (encode asset)))
      | inr any ↦ rw any (
          is_package_action_request-path _
          ∙ rw slash (is_segment_action-append (encode pkg.id) (action_text action) n h)
          ∙ is_action-action_text action)
    ]
