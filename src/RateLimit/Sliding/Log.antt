-- ===== src/RateLimit/Sliding/Log.antt =====
-- What a sliding window promises: a log of all that was ever granted, and a request is granted if it
-- fits the limit together with what is less than the window old. No entry is ever removed.
use distsync.Common.{
  ℕ, ◌+◌, ◌≤◌, Bool, true, false, List, [], ◌∷◌, Text, if◌then◌else◌, ltb, leb, arith, Bool-cases,
  inl, inr, ◌&&◌,
}
use native.Mathlib.Nat.{le_trans}
use distsync.RateLimit.Sliding.{Window}

-- A request that is served some time after the one before: the time that its client saw, its count,
-- and the token that it drew.
pub record Request : Type 0 where
  pub delay : ℕ
  pub now : ℕ
  pub n : ℕ
  pub token : Text

-- When and how much was granted, the last first
abbrev pub Log : Type 0
Log = List (ℕ × ℕ)

-- What is less than the window old
unfoldable pub used : ℕ → Log → ℕ → ℕ
used length [] now = 0
used length ((s, n) ∷ log) now =
    let rest = used length log now in if ltb now (s + length) then n + rest else rest

unfoldable pub log_run : Window → Log → List Request → List Bool
log_run window log [] = []
log_run window log (a ∷ as') =
    let granted = log_run window ((a.now, a.n) ∷ log) as' in
    let refused = log_run window log as' in
    if ltb window.limit (used window.length log a.now + a.n)
    then false ∷ refused
    else true ∷ granted

-- What was granted with a time in the window that ends with `x`
unfoldable pub in_window : ℕ → ℕ → List Request → List Bool → ℕ
in_window length x [] grants = 0
in_window length x (a ∷ as') [] = 0
in_window length x (a ∷ as') (granted ∷ grants) =
    let rest = in_window length x as' grants in
    if granted && leb a.now x && ltb x (a.now + length) then a.n + rest else rest

spent : ℕ → Log → ℕ → ℕ
spent length [] x = 0
spent length ((s, n) ∷ log) x =
    let rest = spent length log x in if leb s x && ltb x (s + length) then n + rest else rest

-- Each entry fitted when it was granted.
Fits : Window → Log → Type 0
Fits window [] = Unit
Fits window ((s, n) ∷ log) =
    let rest = Fits window log in (used window.length ((s, n) ∷ log) s ≤ window.limit) × rest

spent-used : (length : ℕ) (log : Log) (s x : ℕ) → s ≤ x → spent length log x ≤ used length log s
unfolding spent used
spent-used length [] s x le = omega arith
spent-used length ((s', n) ∷ log) s x le = ground (arith, le, spent-used length log s x le)

spent_bound :
    (window : Window) (log : Log) (x : ℕ)
    → Fits window log
    → spent window.length log x ≤ window.limit
unfolding spent Fits
spent_bound window [] x fits = omega arith
spent_bound window ((s, n) ∷ log) x (fit, fits) = elim (Bool-cases (leb s x)) [
  | inl e ↦
      let le : s ≤ x = ground (arith, e) in
      le_trans (spent-used window.length ((s, n) ∷ log) s x le) fit
  | inr e ↦ ground (arith, e, spent_bound window log x fits)
]

log_run_bound_from :
    (window : Window) (log : Log) (asks : List Request) (x : ℕ)
    → Fits window log
    → spent window.length log x + in_window window.length x asks (log_run window log asks)
      ≤ window.limit
unfolding spent Fits log_run in_window used
log_run_bound_from window log [] x fits = omega (arith, spent_bound window log x fits)
log_run_bound_from window log (a ∷ as') x fits =
    elim (Bool-cases (ltb window.limit (used window.length log a.now + a.n))) [
      | inl e ↦ ground (arith, e, log_run_bound_from window log as' x fits)
      | inr e ↦
          let fits' : Fits window ((a.now, a.n) ∷ log) = (ground (arith, e), fits) in
          ground (arith, e, log_run_bound_from window ((a.now, a.n) ∷ log) as' x fits')
    ]

-- In no window of time more than the limit is granted.
pub log_run_bound :
    (window : Window) (asks : List Request) (x : ℕ)
    → in_window window.length x asks (log_run window [] asks) ≤ window.limit
unfolding Fits
log_run_bound window asks x = let h = log_run_bound_from window [] asks x tt in omega (arith, h)
