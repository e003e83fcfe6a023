-- ===== src/Boxes/Buttons.antt =====
-- The buttons of the boxes and the handlers of the page (frontend/kindle/utils.js).
use zen_pm.Prelude.{
  ℕ, zero, suc, ◌+◌, ◌≡◌, ◌≢◌, refl, sym, ap, List, [], ◌∷◌, none, some, Bool, true, false, ◌||◌,
  Text, All, get_elem?, if◌then◌else◌, truthy, arith,
}
use zen_pm.Package.{Package}
use zen_pm.Session.Page.{Page}
use zen_pm.Session.{
  Action, install, reinstall, uninstall, Asset, Modal, notice, modify, confirm, choose, Session,
  Event, click, input, refresh, dismiss, accept, pick_info, pick_reinstall, pick_uninstall, pick,
  settle,
}
use zen_pm.Session.Actions.{begin_package_action, start_package_action}
use zen_pm.Session.Events.{
  hide_modal, dismiss_modal, accept_modal, pick_option, pick_build, show_package_details, step,
}
use zen_pm.Boxes.{Button, build_buttons, box_of}

-- A tap on a button other than one that only closes the box.
abbrev pub IsChoice : Event → Type 0
IsChoice accept = Unit
IsChoice pick_info = Unit
IsChoice pick_reinstall = Unit
IsChoice pick_uninstall = Unit
IsChoice (pick n) = Unit
IsChoice _ = ⊥

abbrev pub Lacks : Event → List Button → Type 0
Lacks e = All (λ b. b.does ≢ e)

build_missing :
    (n k : ℕ) (builds : List Asset)
    → Lacks (pick (n + k)) (build_buttons n builds)
    → get_elem? builds k ≡ none
build_missing n k [] h = refl
build_missing n zero (b ∷ builds) (h, _) =
    let z : n ≡ n + zero = omega arith in absurd (h (ap pick z))
build_missing n (suc k) (b ∷ builds) (_, h) =
    let z : n + suc k ≡ suc n + k = omega arith in build_missing (suc n) k builds (rw z at h)

module _ {V : Type 0} (encode : Text → Text) where
  accept_modal-Lacks :
      (offered : Bool) (m : Modal) (s : Session V)
      → Lacks accept (box_of offered m).buttons
      → accept_modal encode (some m) s ≡ s
  unfolding accept_modal box_of
  accept_modal-Lacks offered (notice _ _ _) s h = refl
  accept_modal-Lacks offered (modify pkg) s h = refl
  accept_modal-Lacks offered (choose _ _ _) s h = refl
  accept_modal-Lacks offered (confirm pkg action) s (_, (h, _)) = absurd (h refl)

  pick_info-Lacks :
      (offered : Bool) (m : Modal) (s : Session V)
      → Lacks pick_info (box_of offered m).buttons
      → pick_option none offered (some m) s ≡ s
  unfolding pick_option box_of
  pick_info-Lacks offered (notice _ _ _) s h = refl
  pick_info-Lacks offered (confirm _ _) s h = refl
  pick_info-Lacks offered (choose _ _ _) s h = refl
  pick_info-Lacks false (modify pkg) s h = refl
  pick_info-Lacks true (modify pkg) s (h, _) = absurd (h refl)

  pick_reinstall-Lacks :
      (offered : Bool) (m : Modal) (s : Session V)
      → Lacks pick_reinstall (box_of offered m).buttons
      → pick_option (some reinstall) offered (some m) s ≡ s
  unfolding pick_option box_of
  pick_reinstall-Lacks offered (notice _ _ _) s h = refl
  pick_reinstall-Lacks offered (confirm _ _) s h = refl
  pick_reinstall-Lacks offered (choose _ _ _) s h = refl
  pick_reinstall-Lacks false (modify pkg) s (h, _) = absurd (h refl)
  pick_reinstall-Lacks true (modify pkg) s (_, (h, _)) = absurd (h refl)

  pick_uninstall-Lacks :
      (offered : Bool) (m : Modal) (s : Session V)
      → Lacks pick_uninstall (box_of offered m).buttons
      → pick_option (some uninstall) offered (some m) s ≡ s
  unfolding pick_option box_of
  pick_uninstall-Lacks offered (notice _ _ _) s h = refl
  pick_uninstall-Lacks offered (confirm _ _) s h = refl
  pick_uninstall-Lacks offered (choose _ _ _) s h = refl
  pick_uninstall-Lacks false (modify pkg) s (_, (h, _)) = absurd (h refl)
  pick_uninstall-Lacks true (modify pkg) s (_, (_, (h, _))) = absurd (h refl)

  pick_build-Lacks :
      (offered : Bool) (n : ℕ) (m : Modal) (s : Session V)
      → Lacks (pick n) (box_of offered m).buttons
      → pick_build encode n (some m) s ≡ s
  unfolding pick_build box_of
  pick_build-Lacks offered n (notice _ _ _) s h = refl
  pick_build-Lacks offered n (modify pkg) s h = refl
  pick_build-Lacks offered n (confirm _ _) s h = refl
  pick_build-Lacks offered n (choose pkg action builds) s h =
      let z : n ≡ 0 + n = omega arith in rw (pick_build, build_missing 0 n builds (rw z at h)) refl

  -- What a tap on a button leaves on the screen is not the box that it stands in.
  abbrev Leaves : Modal → Session V → Type 0
  Leaves m s = s.modal ≢ some m

  start_package_action-Leaves :
      (pkg : Package) (action : Action) (s : Session V)
      → Leaves (confirm pkg action) (start_package_action encode pkg action (hide_modal s))
  unfolding start_package_action begin_package_action
  start_package_action-Leaves pkg install s e = cc
  start_package_action-Leaves pkg reinstall s e = cc
  start_package_action-Leaves pkg uninstall s e = cc

  dismiss_modal-Leaves : (m : Modal) (s : Session V) → Leaves m (dismiss_modal (some m) s)
  unfolding dismiss_modal
  dismiss_modal-Leaves (notice _ _ _) s e = cc
  dismiss_modal-Leaves (modify _) s e = cc
  dismiss_modal-Leaves (confirm _ _) s e = cc
  dismiss_modal-Leaves (choose _ _ _) s e = cc

  pick_build-Leaves :
      (pkg : Package) (action : Action) (builds : List Asset) (s : Session V) (n : ℕ) (b : Asset)
      → get_elem? builds n ≡ some b
      → Leaves (choose pkg action builds) (pick_build encode n (some (choose pkg action builds)) s)
  unfolding pick_build begin_package_action
  pick_build-Leaves pkg action builds s n b e = rw (pick_build, e) (λ r. cc)

  show_package_details-Leaves :
      (pkg : Package) (s : Session V)
      → Leaves (modify pkg) (show_package_details pkg (hide_modal s))
  unfolding show_package_details
  show_package_details-Leaves pkg s = by_name (truthy pkg.id || truthy pkg.name)
    where
      by_name :
          (b : Bool)
          → Leaves
              (modify pkg)
              (if b then record s { modal = none; leaving = true } else hide_modal s)
      by_name true e = cc
      by_name false e = cc

  module _ (page : Page V) where
    -- The box `m` is open.
    abbrev opened : Modal → Session V → Session V
    opened m s = record s { modal = some m }

    abbrev Acts : Modal → Session V → Button → Type 0
    Acts m s b = Leaves m (step encode page (opened m s) b.does)

    builds-Acts :
        (pkg : Package) (action : Action) (builds : List Asset) (s : Session V) (n : ℕ)
        (rest : List Asset)
        → ((k : ℕ) → get_elem? rest k ≡ get_elem? builds (n + k))
        → All (Acts (choose pkg action builds) s) (build_buttons n rest)
    unfolding step
    builds-Acts pkg action builds s n [] same =
        (dismiss_modal-Leaves (choose pkg action builds) (opened (choose pkg action builds) s), tt)
    builds-Acts pkg action builds s n (b ∷ rest) same = (
      pick_build-Leaves pkg action builds (opened (choose pkg action builds) s) n b
          (let z : n + 0 ≡ n = omega arith in rw z at (sym (same 0))),
      builds-Acts pkg action builds s (suc n) rest
          (λ k. (let z : n + suc k ≡ suc n + k = omega arith in rw z at (same (suc k)))),
    )

    modify-Acts :
        (offered : Bool) (pkg : Package) (s : Session V)
        → page.offers_info ≡ offered
        → All (Acts (modify pkg) s) (box_of offered (modify pkg)).buttons
    unfolding step box_of pick_option
    modify-Acts false pkg s e = ((λ r. cc), ((λ r. cc), tt))
    modify-Acts true pkg s e = (
      rw e (show_package_details-Leaves pkg (opened (modify pkg) s)),
      ((λ r. cc), ((λ r. cc), tt)),
    )

    buttons-Acts : (m : Modal) (s : Session V) → All (Acts m s) (box_of page.offers_info m).buttons
    unfolding step box_of accept_modal
    buttons-Acts (notice t u c) s =
        (dismiss_modal-Leaves (notice t u c) (opened (notice t u c) s), tt)
    buttons-Acts (confirm pkg action) s = (
      dismiss_modal-Leaves (confirm pkg action) (opened (confirm pkg action) s),
      (start_package_action-Leaves pkg action (opened (confirm pkg action) s), tt),
    )
    buttons-Acts (modify pkg) s = modify-Acts page.offers_info pkg s refl
    buttons-Acts (choose pkg action builds) s =
        builds-Acts pkg action builds s 0 builds
          (λ k. (let z : k ≡ 0 + k = omega arith in ap (get_elem? builds) z))

    step_idle :
        (m : Modal) (s : Session V) (e : Event)
        → IsChoice e
        → Lacks e (box_of page.offers_info m).buttons
        → step encode page (opened m s) e ≡ opened m s
    unfolding step
    step_idle m s accept c h = accept_modal-Lacks page.offers_info m (opened m s) h
    step_idle m s pick_info c h = pick_info-Lacks page.offers_info m (opened m s) h
    step_idle m s pick_reinstall c h = pick_reinstall-Lacks page.offers_info m (opened m s) h
    step_idle m s pick_uninstall c h = pick_uninstall-Lacks page.offers_info m (opened m s) h
    step_idle m s (pick n) c h = pick_build-Lacks page.offers_info n m (opened m s) h
    step_idle m s (click pkg) c h = absurd c
    step_idle m s (input text) c h = absurd c
    step_idle m s refresh c h = absurd c
    step_idle m s dismiss c h = absurd c
    step_idle m s (settle n a) c h = absurd c

    -- Each button of an open box does something: it takes the box away or puts another in its place.
    -- And a choice for which the open box has no button changes nothing.
    pub box_of-step :
        (m : Modal) (s : Session V)
        → All
            (λ b. (step encode page (record s { modal = some m }) b.does).modal ≢ some m)
            (box_of page.offers_info m).buttons
          × ((e : Event)
              → IsChoice e
              → Lacks e (box_of page.offers_info m).buttons
              → step encode page (record s { modal = some m }) e ≡ record s { modal = some m })
    box_of-step m s = (buttons-Acts m s, λ e c h. step_idle m s e c h)
