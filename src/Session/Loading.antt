-- ===== src/Session/Loading.antt =====
-- One load of a page with nothing else in between: each request is answered by `ask`.
use zen_pm.Prelude.{
  ℕ, zero, suc, ◌<◌, ◌≡◌, ◌≢◌, Option, none, some, Bool, true, false, Text, if◌then◌else◌,
}
use zen_pm.Session.{Stage, Answer}
use zen_pm.Session.Page.{Loaded, Page}
use zen_pm.Session.Keeps.{Arrives}

-- `falls` of IsFinite, from a bound on what each request leads to.
pub falls_of_Arrives :
    {V : Type 0} (load : Stage → Answer → Text → V → Option (Loaded V)) (weight : Stage → ℕ)
    → ((st : Stage) (a : Answer) (hint : Text) (own : V)
        → Arrives (λ _. Unit) (λ st'. weight st' < weight st) (load st a hint own))
    → (st : Stage) (a : Answer) (hint : Text) (own : V) (l : Loaded V) (st' : Stage)
    → load st a hint own ≡ some l
    → l.next ≡ some st'
    → weight st' < weight st
falls_of_Arrives {V} load weight below st a hint own l st' e n =
    bounded l.next st' n ((rw e at (below st a hint own)).1)
  where
    bounded :
        (next : Option Stage) (st' : Stage)
        → next ≡ some st'
        → elim next as (λ _. Type 0) [ none ↦ Unit | some u ↦ weight u < weight st ]
        → weight st' < weight st
    bounded none st' n h = cc
    bounded (some u) st' n h = let same : u ≡ st' = cc in rw same at h

module _ {V : Type 0} (page : Page V) (ask : Stage → Answer) where
  -- The page's own state and the hint when the load has ended, on fuel; `none` also where a request
  -- is answered in a way that it cannot be.
  unfoldable pub load_from : ℕ → Stage → Text → V → Option (V × Text)
  load_from zero st hint own = none
  load_from (suc n) st hint own = elim (page.load st (ask st) hint own) [
    | none ↦ none
    | some l ↦ elim l.next [ none ↦ some (l.own, l.hint) | some st' ↦ load_from n st' l.hint l.own ]
  ]

  -- What a request leads to, with `n` more requests allowed, comes to its end.
  abbrev pub Ends : ℕ → Option (Loaded V) → Type 0
  Ends n none = ⊥
  Ends n (some l) = elim l.next [ none ↦ Unit | some st ↦ load_from n st l.hint l.own ≢ none ]

  pub load_from-Ends :
      (n : ℕ) (st : Stage) (hint : Text) (own : V)
      → Ends n (page.load st (ask st) hint own)
      → load_from (suc n) st hint own ≢ none
  unfolding load_from
  load_from-Ends n st hint own h = by_result (page.load st (ask st) hint own) h
    where
      by_next :
          (l : Loaded V) (next : Option Stage)
          → elim next as (λ _. Type 0) [
            | none ↦ Unit
            | some st ↦ load_from n st l.hint l.own ≢ none
          ]
          → elim next as (λ _. Option (V × Text)) [
            | none ↦ some (l.own, l.hint)
            | some st' ↦ load_from n st' l.hint l.own
          ]
            ≢ none
      by_next l none h = λ e. cc
      by_next l (some st) h = h

      by_result :
          (o : Option (Loaded V))
          → Ends n o
          → elim o as (λ _. Option (V × Text)) [
            | none ↦ none
            | some l ↦ elim l.next [
              | none ↦ some (l.own, l.hint)
              | some st' ↦ load_from n st' l.hint l.own
            ]
          ]
            ≢ none
      by_result none h = absurd h
      by_result (some l) h = by_next l l.next h

  pub either-Ends :
      (n : ℕ) (b : Bool) (x y : Loaded V)
      → Ends n (some x)
      → Ends n (some y)
      → Ends n (some (if b then x else y))
  either-Ends n true x y h k = h
  either-Ends n false x y h k = k
