-- ===== src/RateLimit/Sliding/Refine.antt =====
-- The sorted set, which forgets what has lapsed, grants what the log grants, which forgets nothing.
use distsync.Common.{
  ℕ, ◌+◌, ◌≤◌, ◌≡◌, ◌≢◌, ◌∙◌, sym, ap, refl, Bool, true, false, not, none, List, [], ◌∷◌,
  if◌then◌else◌, ltb, arith, All, length, Bool-cases, inl, inr, subst,
}
use distsync.Common.Int.{sub_ℕ}
use distsync.Redis.Windows.{Windows, WindowLaws}
use distsync.Lease.Core.{milliseconds}
use distsync.RateLimit.Sliding.{Window, member, sliding_script}
use distsync.RateLimit.Sliding.Log.{Request, Log, used, log_run, in_window, log_run_bound}
use distsync.RateLimit.Sliding.Members.{zscore-add_entries}
use distsync.RateLimit.Sliding.Counts.{
  Counts, Unseen, pexpire-Counts, pexpire-Unseen, after_purge, zcount-purged, zcard-purged,
  zcount-added, All-later,
}

-- Requests are served in the order of the times that their clients saw, each before a window is over.
unfoldable pub InTime : Window → (t last : ℕ) → List Request → Type 0
InTime window t last [] = Unit
InTime window t last (a ∷ as') =
    let t' = t + a.delay in
    let rest = InTime window t' a.now as' in
    (last ≤ a.now) × (a.now ≤ milliseconds t') × (milliseconds t' ≤ a.now + window.length) × rest

-- Tokens have 32 digits, and no two are equal.
unfoldable pub TokensApart : List Request → Type 0
TokensApart [] = Unit
TokensApart (a ∷ as') =
    let rest = TokensApart as' in
    (length a.token ≡ 32) × All (λ b. (length b.token ≡ 32) × (a.token ≢ b.token)) as' × rest

module _ {W : Type 0} (redis : Windows W) (window : Window) where
  -- The requests at the server, and which it grants
  unfoldable pub run : ℕ → W → List Request → List Bool
  run t w [] = []
  run t w (a ∷ as') =
      let (w', reply) = sliding_script redis window w (t + a.delay) a.now a.n a.token in
      reply.0 ∷ run (t + a.delay) w' as'

module _ {W : Type 0} (redis : Windows W) (laws : WindowLaws redis) (window : Window) where
  open redis use {zcount, zscore, zcard, zfirst, pexpire, del}

  -- What the script leaves, in both cases
  pub step-Counts :
      (w : W) (t last : ℕ) (log : Log) (t' : ℕ) (a : Request)
      → Counts redis laws window t last log w
      → t ≤ t'
      → last ≤ a.now
      → a.now ≤ milliseconds t'
      → milliseconds t' ≤ a.now + window.length
      → All (λ e. e.0 ≤ last) log
      → Unseen redis laws window t w a
      → (let fits = not (ltb window.limit (used window.length log a.now + a.n)) in
          let (w', reply) = sliding_script redis window w t' a.now a.n a.token in
          (reply.0 ≡ fits)
          × Counts redis laws window t' a.now (if fits then (a.now, a.n) ∷ log else log) w')
  unfolding sliding_script after_purge
  step-Counts w t last log t' a counts le le' shown near before unseen =
      let card = zcard-purged redis laws window w t last log t' a counts le le' near in
      let before' = All-later log last a.now le' before in
      elim (Bool-cases (ltb window.limit (used window.length log a.now + a.n))) [
        | inl e ↦
            rw (card, e)
              (
                refl,
                pexpire-Counts redis laws window _ t' a.now log shown before'
                    (zcount-purged redis laws window w t last log t' a counts le le' near),
              )
        | inr e ↦
            rw (card, e)
              (
                refl,
                pexpire-Counts redis laws window _ t' a.now ((a.now, a.n) ∷ log) shown
                    (omega arith, before')
                    (λ x later.
                      zcount-added redis laws window w t last log t' a counts le le' near x later
                        unseen),
              )
      ]

  step-Unseen :
      (w : W) (t t' : ℕ) (a b : Request)
      → t ≤ t'
      → length a.token ≡ length b.token
      → a.token ≢ b.token
      → Unseen redis laws window t w b
      → Unseen redis laws window t' (sliding_script redis window w t' a.now a.n a.token).0 b
  unfolding sliding_script after_purge
  step-Unseen w t t' a b le same apart unseen =
      let w' = after_purge redis laws window w t' a.now in
      let absent : (j : ℕ) → zscore w' t' window.key (member b.token j) ≡ none = λ j.
        laws.zscore-zremrangebyscore w t' window.key (member b.token j) (sub_ℕ a.now window.length)
          (unseen t' j le) in
      elim (Bool-cases (ltb window.limit (zcard w' t' window.key + a.n))) [
        | inl e ↦ rw e (pexpire-Unseen redis laws window w' t' b absent)
        | inr e ↦ rw e (
            pexpire-Unseen redis laws window _ t' b (λ j.
              zscore-add_entries redis laws window w' t' a.now a.token b.token 0 a.n j same apart
              ∙ absent j))
      ]

  steps-Unseen :
      (w : W) (t t' : ℕ) (a : Request) (asks : List Request)
      → t ≤ t'
      → length a.token ≡ 32
      → All (λ b. (length b.token ≡ 32) × (a.token ≢ b.token)) asks
      → All (Unseen redis laws window t w) asks
      → All
          (Unseen redis laws window t' (sliding_script redis window w t' a.now a.n a.token).0)
          asks
  steps-Unseen w t t' a [] le digits apart unseen = tt
  steps-Unseen w t t' a (b ∷ asks) le digits ((digits', ne), apart) (u, unseen) = (
    step-Unseen w t t' a b le (digits ∙ sym digits') ne u,
    steps-Unseen w t t' a asks le digits apart unseen,
  )

  run-log :
      (t last : ℕ) (w : W) (log : Log) (asks : List Request)
      → Counts redis laws window t last log w
      → All (λ e. e.0 ≤ last) log
      → All (Unseen redis laws window t w) asks
      → InTime window t last asks
      → TokensApart asks
      → run redis window t w asks ≡ log_run window log asks
  unfolding run log_run InTime TokensApart
  run-log t last w log [] counts before unseen in_time tokens = refl
  run-log t last w log (a ∷ as') counts before (u, unseen) (le, shown, near, in_time)
        (digits, apart, tokens) =
      let t' = t + a.delay in
      let step = step-Counts w t last log t' a counts (omega arith) le shown near before u in
      let w' = (sliding_script redis window w t' a.now a.n a.token).0 in
      let unseen' = steps-Unseen w t t' a as' (omega arith) digits apart unseen in
      let before' = All-later log last a.now le before in
      let rest =
        λ (log' : Log) (c : Counts redis laws window t' a.now log' w')
            (b : All (λ e. e.0 ≤ a.now) log').
          run-log t' a.now w' log' as' c b unseen' in_time tokens in
      let kept = λ (full : Bool).
        Counts redis laws window t' a.now (if not full then (a.now, a.n) ∷ log else log) w' in
      elim (Bool-cases (ltb window.limit (used window.length log a.now + a.n))) [
        | inl e ↦ rw (step.0, e) (ap (λ r. false ∷ r) (rest log (subst kept e step.1) before'))
        | inr e ↦
            rw (step.0, e)
              (ap (λ r. true ∷ r)
                (rest ((a.now, a.n) ∷ log) (subst kept e step.1) (omega arith, before')))
      ]

  nothing-Unseen :
      (t : ℕ) (w : W) (asks : List Request)
      → All (Unseen redis laws window t (del w t window.key)) asks
  nothing-Unseen t w [] = tt
  nothing-Unseen t w (a ∷ asks) =
      (λ t' j le. laws.zscore-del w t t' window.key (member a.token j) le, nothing-Unseen t w asks)

  -- From an empty window, with tokens of which no two are equal: the requests that are granted are
  -- those that fit the limit together with all that was granted less than a window before them, if
  -- they are served in the order of the times that their clients saw and before a window is over.
  pub sliding_run-log :
      (t : ℕ) (w : W) (asks : List Request)
      → InTime window t 0 asks
      → TokensApart asks
      → run redis window t (del w t window.key) asks ≡ log_run window [] asks
  unfolding Counts used
  sliding_run-log t w asks in_time tokens =
      run-log t 0 (del w t window.key) [] asks
        (λ t' x le _ _. laws.zcount-del w t t' window.key (sub_ℕ x window.length) le) tt
        (nothing-Unseen t w asks) in_time tokens

  -- From an empty window, with tokens of 32 digits of which no two are equal: no more than the limit
  -- is granted in any window of time, if requests are served in the order of the times that their
  -- clients saw, none before its time, and each before a window is over.
  pub sliding_run_bound :
      (t : ℕ) (w : W) (asks : List Request) (x : ℕ)
      → InTime window t 0 asks
      → TokensApart asks
      → in_window window.length x asks (run redis window t (del w t window.key) asks) ≤ window.limit
  sliding_run_bound t w asks x in_time tokens =
      rw (sliding_run-log t w asks in_time tokens) (log_run_bound window asks x)
