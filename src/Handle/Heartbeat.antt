-- ===== src/Handle/Heartbeat.antt =====
-- guard.go and internal/lease/renewer.go together: the loop that a handle starts, by startRenewal or
-- startWatchdog, and how often it ticks.
use distsync.Common.{
  ℕ, ◌+◌, ◌*◌, ◌/◌, ◌≤◌, ◌<◌, ◌≡◌, ◌⊎◌, dec_lt, sym, refl, Bool, true, false, List, [], ◌∷◌, ◌||◌,
  if◌then◌else◌, ◌==◌, arith, Bool-cases, inl, inr, All,
}
use mathlib.Core.Bool.{false≢true}
use distsync.Redis.{millisecond}
use distsync.Lease.Core.{Error, lost, is_error, Trip, request_expiry}
use distsync.Lease.Interface.{Methods}
use distsync.Config.Delay.{draws, jittered}
use distsync.Handle.{
  Handle, mark_lost, check_deadline, check_held, checked, noted, with_lease_deadline, renew, watch,
  is_nil,
}
use distsync.Handle.Lifecycle.{Event, live_through}

-- renewalInterval, where the draw `r` of rand.Float64 stands for `r / 2 ^ 53`
unfoldable pub renewal_interval : ℕ → ℕ → ℕ
renewal_interval ttl r =
    let base = if ttl / 3 == 0 then 1_000 * millisecond else ttl / 3 in
    base * (4 * draws + 2 * r) / (5 * draws)

-- A turn of the loop: what happened to the handle since the one before, whether the loop's context
-- was over then, the call, and whether the context was over after it.
pub record Beat : Type 0 where
  pub between : List Event
  pub stopped : Bool
  pub now : ℕ
  pub cut : Bool
  pub trip : Trip
  pub over : Bool

pub lost-is_nil : (e : Error) → is_error e lost ≡ true → is_nil e ≡ false
unfolding is_error
lost-is_nil [] h = absurd (false≢true h)
lost-is_nil (e ∷ es) h = refl

module _ {Db L : Type 0} (methods : Methods Db L) where
  -- The loop, and whether it has ended: `call` is `renew`, or what `startWatchdog` runs.
  unfoldable pub heartbeat :
      (Handle L → ℕ → Bool → Trip → Db → Db × Handle L × Error)
      → Db × Handle L
      → List Beat
      → (Db × Handle L) × Bool
  unfolding mark_lost
  heartbeat call s [] = (s, false)
  heartbeat call s (b ∷ bs) =
      let (db, h) = live_through methods s b.between in
      let (db', h', e) = call h b.now b.cut b.trip db in
      let rest = heartbeat call (db', h') bs in
      if b.stopped
      then ((db, h), true)
      else if b.over
      then ((db', h'), true)
      else if is_nil e
      then rest
      else if is_error e lost
      then ((db', mark_lost h'), true)
      else rest

  -- startRenewal, at a time
  unfoldable pub start_renewal : Db × Handle L → ℕ → List Beat → (Db × Handle L) × Bool
  unfolding heartbeat
  start_renewal (db, h) now bs = heartbeat (renew methods) (db, check_deadline methods h now) bs

  -- startWatchdog
  unfoldable pub start_watchdog : Db × Handle L → ℕ → List Beat → (Db × Handle L) × Bool
  unfolding heartbeat
  start_watchdog (db, h) now bs = heartbeat (watch methods) (db, check_deadline methods h now) bs

  -- A call that does not return ErrLost leaves a live handle.
  IsHonest : (Handle L → ℕ → Bool → Trip → Db → Db × Handle L × Error) → Type 0
  IsHonest call =
      (h : Handle L) (now : ℕ) (cut : Bool) (trip : Trip) (db : Db)
      → is_error (call h now cut trip db).2 lost ≡ false
      → (call h now cut trip db).1.is_lost ≡ false

  deadline-honest :
      (h : Handle L) (now : ℕ) (cut : Bool) (back : ℕ) (call : L → Db → Db × L × Error) (db : Db)
      → is_error (with_lease_deadline methods h now cut back call db).2 lost ≡ false
      → (with_lease_deadline methods h now cut back call db).1.is_lost ≡ false
  unfolding with_lease_deadline checked mark_lost is_error
  deadline-honest h now cut back call db e = ground (arith, e)

  renew-IsHonest : IsHonest (renew methods)
  unfolding IsHonest renew noted mark_lost is_error
  renew-IsHonest h now cut trip db e =
      ground (arith, e, deadline-honest h now cut trip.back (λ l d. methods.renew l trip d) db)

  watch-IsHonest : IsHonest (watch methods)
  unfolding IsHonest watch
  watch-IsHonest h now cut trip db e =
      deadline-honest h now cut trip.back (check_held methods trip) db e

  module _ (call : Handle L → ℕ → Bool → Trip → Db → Db × Handle L × Error)
      (honest : IsHonest call) where
    -- A turn, by what the turns after it do
    turn-ended :
        (s : Db × Handle L) (b : Beat) (bs : List Beat)
        → (b.stopped || b.over) ≡ false
        → ((s' : Db × Handle L)
            → s'.1.is_lost ≡ false
            → (heartbeat call s' bs).1 ≡ (heartbeat call s' bs).0.1.is_lost)
        → (heartbeat call s (b ∷ bs)).1 ≡ (heartbeat call s (b ∷ bs)).0.1.is_lost
    unfolding heartbeat mark_lost IsHonest
    turn-ended s b bs on rest =
        let (db, h) : Db × Handle L = live_through methods s b.between in
        let (db', h', e) : Db × Handle L × Error = call h b.now b.cut b.trip db in
        elim (Bool-cases (is_error e lost)) [
          | inl l ↦ ground (arith, on, l, lost-is_nil e l)
          | inr l ↦ ground (arith, on, l, rest (db', h') (honest h b.now b.cut b.trip db l))
        ]

    turns-ended :
        (bs : List Beat) (s : Db × Handle L)
        → All (λ b. (b.stopped || b.over) ≡ false) bs
        → s.1.is_lost ≡ false
        → (heartbeat call s bs).1 ≡ (heartbeat call s bs).0.1.is_lost
    unfolding heartbeat
    turns-ended [] s on live = sym live
    turns-ended (b ∷ bs) s (on, ons) live =
        turn-ended s b bs on (λ s' live'. turns-ended bs s' ons live')

    heartbeat-ended :
        (s : Db × Handle L) (b : Beat) (bs : List Beat)
        → All (λ c. (c.stopped || c.over) ≡ false) (b ∷ bs)
        → (heartbeat call s (b ∷ bs)).1 ≡ (heartbeat call s (b ∷ bs)).0.1.is_lost
    heartbeat-ended s b bs (on, ons) = turn-ended s b bs on (λ s' live. turns-ended bs s' ons live)

  -- As long as nobody stops it, the loop of a handle has ended after its turns, of which there is
  -- one at least, if and only if the handle is lost: with automatic renewal and with the watchdog.
  pub heartbeat_until_lost :
      (db : Db) (h : Handle L) (now : ℕ) (b : Beat) (bs : List Beat)
      → All (λ c. (c.stopped || c.over) ≡ false) (b ∷ bs)
      → ((start_renewal (db, h) now (b ∷ bs)).1 ≡ (start_renewal (db, h) now (b ∷ bs)).0.1.is_lost)
        × ((start_watchdog (db, h) now (b ∷ bs)).1
            ≡ (start_watchdog (db, h) now (b ∷ bs)).0.1.is_lost)
  unfolding start_renewal start_watchdog
  heartbeat_until_lost db h now b bs on = (
    heartbeat-ended (renew methods) renew-IsHonest (db, check_deadline methods h now) b bs on,
    heartbeat-ended (watch methods) watch-IsHonest (db, check_deadline methods h now) b bs on,
  )

-- For a timeout from 3 ns on: the interval of the heartbeat is four fifths of its third at least,
-- both rounded down, and six fifteenths of it at most. The ticker starts when the grant is known: if
-- that is within a tenth of the timeout from the request on, and the timeout is 12 ms at least, two
-- heartbeats are due before the local deadline of that request.
pub renewal_interval_bounds :
    (ttl r start begin : ℕ)
    → 3 ≤ ttl
    → r < draws
    → begin ≤ start + ttl / 10
    → (4 * (ttl / 3) / 5 ≤ renewal_interval ttl r)
      × (renewal_interval ttl r ≤ 6 * ttl / 15)
      × ((ttl < 12 * millisecond) ⊎ (begin + 2 * renewal_interval ttl r < request_expiry start ttl))
unfolding renewal_interval request_expiry
renewal_interval_bounds ttl r start begin some_ttl lt soon =
    let i = ttl / 3 * (4 * draws + 2 * r) / (5 * draws) in
    let (low, high) : (4 * (ttl / 3) / 5 ≤ i) × (i ≤ 6 * (ttl / 3) / 5) = jittered (ttl / 3) r lt in
    let third : (ttl / 3 == 0) ≡ false = ground arith in
    rw third (
      low,
      omega (arith, high),
      elim (dec_lt ttl (12 * millisecond)) [
        | yes short ↦ inl short
        | no long ↦ inr (omega (arith, high, long, soon))
      ],
    )
