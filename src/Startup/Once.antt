-- ===== src/Startup/Once.antt =====
-- What a page of frontend/kindle/pages does when it starts.
use zen_pm.Prelude.{
  ℕ, zero, suc, ◌+◌, ◌≡◌, refl, List, [], ◌∷◌, ◌++◌, Bool, true, false, one_if, arith, length,
  if◌then◌else◌,
}
use zen_pm.Startup.{
  Startup, Call, setup_chrome, init_page, Started, Signal, ongo, timeout, try_setup_chrome, prepare,
  init, on_signal, run, start,
}

abbrev pub inits : List Call → ℕ
inits [] = 0
inits (init_page ∷ calls) = 1 + inits calls
inits (setup_chrome title ∷ calls) = inits calls

abbrev pub chromes : List Call → ℕ
chromes [] = 0
chromes (init_page ∷ calls) = chromes calls
chromes (setup_chrome title ∷ calls) = 1 + chromes calls

-- How often the page would set up the Kindle's bars at a signal, if nothing guarded it.
abbrev pub asks : Startup → Signal → ℕ
asks cfg ongo = 1
asks cfg timeout = one_if cfg.chrome_at_once

abbrev pub requests : Startup → List Signal → ℕ
requests cfg [] = 0
requests cfg (x ∷ signals) = asks cfg x + requests cfg signals

-- 1 for what happens at all.
abbrev pub once : ℕ → ℕ
once zero = 0
once (suc n) = 1

abbrev pub due : Startup → ℕ → ℕ
due cfg n = if cfg.guards_chrome then once n else n

inits-append : (xs ys : List Call) → inits (xs ++ ys) ≡ inits xs + inits ys
inits-append [] ys = omega arith
inits-append (init_page ∷ xs) ys = omega (arith, inits-append xs ys)
inits-append (setup_chrome title ∷ xs) ys = inits-append xs ys

chromes-append : (xs ys : List Call) → chromes (xs ++ ys) ≡ chromes xs + chromes ys
chromes-append [] ys = omega arith
chromes-append (init_page ∷ xs) ys = chromes-append xs ys
chromes-append (setup_chrome title ∷ xs) ys = omega (arith, chromes-append xs ys)

-- After `k` signals.
abbrev IsInited : ℕ → Started → Type 0
IsInited k s = (inits s.calls ≡ once k) × (one_if s.inited ≡ once k)

-- After signals at which the page would set up the bars `n` times.
abbrev HasChrome : Startup → ℕ → Started → Type 0
HasChrome cfg n s = (chromes s.calls ≡ due cfg n) × (one_if s.chrome_setup ≡ once n)

init-IsInited : (cfg : Startup) (k : ℕ) (s : Started) → IsInited k s → IsInited (suc k) (init cfg s)
init-IsInited cfg k s h = by_flag s.inited h
  where
    by_flag :
        (b : Bool)
        → IsInited k (record s { inited = b })
        → IsInited (suc k) (init cfg (record s { inited = b }))
    by_flag true (h, f) = unfold init in (omega (arith, h, f), refl)
    by_flag false (h, f) =
        unfold init in (omega (arith, h, f, inits-append s.calls (init_page ∷ [])), refl)

init-HasChrome :
    (cfg : Startup) (n : ℕ) (s : Started) → HasChrome cfg n s → HasChrome cfg n (init cfg s)
init-HasChrome cfg n s h = by_flag s.inited h
  where
    by_flag : (b : Bool) → HasChrome cfg n s → HasChrome cfg n (init cfg (record s { inited = b }))
    by_flag true h = unfold init in h
    by_flag false (h, f) =
        unfold init in (omega (arith, h, chromes-append s.calls (init_page ∷ [])), f)

try-IsInited :
    (cfg : Startup) (k : ℕ) (s : Started) → IsInited k s → IsInited k (try_setup_chrome cfg s)
try-IsInited cfg k s h = by_flags cfg.guards_chrome s.chrome_setup h
  where
    by_flags :
        (g b : Bool)
        → IsInited k s
        → IsInited k
            (try_setup_chrome (record cfg { guards_chrome = g }) (record s { chrome_setup = b }))
    by_flags true true h = unfold try_setup_chrome in h
    by_flags true false (h, f) =
        unfold try_setup_chrome in
        (omega (arith, h, inits-append s.calls (setup_chrome cfg.title ∷ [])), f)
    by_flags false b (h, f) =
        unfold try_setup_chrome in
        (omega (arith, h, inits-append s.calls (setup_chrome cfg.title ∷ [])), f)

try-HasChrome :
    (cfg : Startup) (n : ℕ) (s : Started)
    → HasChrome cfg n s
    → HasChrome cfg (suc n) (try_setup_chrome cfg s)
try-HasChrome cfg n s h = by_flags cfg.guards_chrome s.chrome_setup h
  where
    by_flags :
        (g b : Bool)
        → HasChrome (record cfg { guards_chrome = g }) n (record s { chrome_setup = b })
        → HasChrome
            (record cfg { guards_chrome = g })
            (suc n)
            (try_setup_chrome (record cfg { guards_chrome = g }) (record s { chrome_setup = b }))
    by_flags true true (h, f) = unfold try_setup_chrome in (omega (arith, h, f), refl)
    by_flags true false (h, f) =
        unfold try_setup_chrome in
        (omega (arith, h, f, chromes-append s.calls (setup_chrome cfg.title ∷ [])), refl)
    by_flags false b (h, f) =
        unfold try_setup_chrome in
        (omega (arith, h, chromes-append s.calls (setup_chrome cfg.title ∷ [])), refl)

module _ (cfg : Startup) where
  prepare-IsInited :
      (x : Signal) (k : ℕ) (s : Started) → IsInited k s → IsInited k (prepare cfg x s)
  unfolding prepare
  prepare-IsInited ongo k s h = try-IsInited cfg k s h
  prepare-IsInited timeout k s h = by_flag cfg.chrome_at_once
    where
      by_flag : (b : Bool) → IsInited k (if b then try_setup_chrome cfg s else s)
      by_flag true = try-IsInited cfg k s h
      by_flag false = h

  prepare-HasChrome :
      (x : Signal) (n : ℕ) (s : Started)
      → HasChrome cfg n s
      → HasChrome cfg (asks cfg x + n) (prepare cfg x s)
  unfolding prepare
  prepare-HasChrome ongo n s h =
      let e : 1 + n ≡ suc n = omega arith in rw e (try-HasChrome cfg n s h)
  prepare-HasChrome timeout n s h = by_flag cfg.chrome_at_once
    where
      by_flag : (b : Bool) → HasChrome cfg (one_if b + n) (if b then try_setup_chrome cfg s else s)
      by_flag true = let e : 1 + n ≡ suc n = omega arith in rw e (try-HasChrome cfg n s h)
      by_flag false = let e : 0 + n ≡ n = omega arith in rw e h

  run-IsInited :
      (signals : List Signal) (k : ℕ) (s : Started)
      → IsInited k s
      → IsInited (length signals + k) (run cfg signals s)
  unfolding run on_signal
  run-IsInited [] k s h = let e : 0 + k ≡ k = omega arith in rw e h
  run-IsInited (x ∷ signals) k s h =
      let e : length (x ∷ signals) + k ≡ length signals + suc k = omega arith in
      rw e (
        run-IsInited signals (suc k) (on_signal cfg x s)
          (init-IsInited cfg k (prepare cfg x s) (prepare-IsInited x k s h)))

  run-HasChrome :
      (signals : List Signal) (n : ℕ) (s : Started)
      → HasChrome cfg n s
      → HasChrome cfg (requests cfg signals + n) (run cfg signals s)
  unfolding run on_signal
  run-HasChrome [] n s h = let e : 0 + n ≡ n = omega arith in rw e h
  run-HasChrome (x ∷ signals) n s h =
      let m = asks cfg x + n in
      let e : requests cfg (x ∷ signals) + n ≡ requests cfg signals + m = omega arith in
      rw e (
        run-HasChrome signals m (on_signal cfg x s)
          (init-HasChrome cfg m (prepare cfg x s) (prepare-HasChrome x n s h)))

  -- However often and in whatever order `ongo` and the timer come, the page is initialised once, as
  -- soon as one of them has come; and the Kindle's bars are set up once where trySetupChrome guards
  -- it, else at each signal at which the page asks for it.
  pub start-once :
      (signals : List Signal)
      → (inits (start cfg signals) ≡ once (length signals))
        × (chromes (start cfg signals)
            ≡ (if cfg.guards_chrome then once (requests cfg signals) else requests cfg signals))
  unfolding start
  start-once signals =
      let fresh : Started = record { chrome_setup = false; inited = false; calls = [] } in
      let (i, _) = run-IsInited signals 0 fresh (refl, refl) in
      let (c, _) = run-HasChrome signals 0 fresh (none_due cfg.guards_chrome, refl) in
      let e : length signals + 0 ≡ length signals = omega arith in
      let f : requests cfg signals + 0 ≡ requests cfg signals = omega arith in
      (rw e at i, rw f at c)
    where
      none_due : (g : Bool) → 0 ≡ (if g then once 0 else 0)
      none_due true = refl
      none_due false = refl
