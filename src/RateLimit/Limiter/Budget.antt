-- ===== src/RateLimit/Limiter/Budget.antt =====
-- What Allow grants with a token bucket, to all clients together, whatever requests and replies are
-- lost.
use distsync.Common.{
  ℕ, ◌+◌, ◌-◌, ◌*◌, ◌≤◌, ◌<◌, ◌≡◌, refl, subst, Bool, true, false, not, ◌&&◌, List, [], ◌∷◌, Text,
  All, arith, Bool-cases, inl, inr, ltb, if◌then◌else◌, ◌==◌,
}
use distsync.Common.Int.{pos, negsuc}
use distsync.Redis.Hashes.{HashLaws}
use distsync.Lease.Core.{Trip, delivered, reply_lost, request_lost, milliseconds}
use distsync.RateLimit.Bucket.{token_verdict}
use distsync.RateLimit.Bucket.Refine.{Ask, Near, run}
use distsync.RateLimit.Bucket.Bounds.{granted, later, token_bound}
use native.Mathlib.Nat.{le_trans}
use distsync.RateLimit.{Answer}
use distsync.RateLimit.Limiter.{
  Double, nan, infinite, finite, Limiter, token_bucket, bucket_of, rounded, Server, ask, allow,
}

-- One call of Allow
pub record Call : Type 0 where
  pub n : Double
  pub token : Text
  pub trip : Trip

-- The number of a request, in units of 2^-1074
unfoldable pub size : Double → ℕ
size nan = 0
size (infinite negative) = 0
size (finite (pos n)) = n
size (finite (negsuc n)) = 0

-- Whether the script runs
unfoldable pub is_asked : Limiter → Double → Trip → Bool
unfolding size
is_asked rl x trip =
    not (size x == 0)
    && not (ltb rl.capacity (size x))
    && elim trip.fate [ request_lost ↦ false | delivered ↦ true | reply_lost ↦ true ]

-- The requests that the server gets, from the time `t` on
unfoldable pub asks_of : Limiter → ℕ → List Call → List Ask
unfolding is_asked
asks_of rl t [] = []
asks_of rl t (c ∷ cs) =
    let rest = asks_of rl t cs in
    let rest' = asks_of rl c.trip.served cs in
    if is_asked rl c.n c.trip
    then (record {
      delay = c.trip.served - t;
      now = milliseconds c.trip.sent;
      requested = size c.n * 1_000;
    }
        ∷ rest')
    else rest

-- The server runs scripts in the order of the calls.
unfoldable pub InOrder : ℕ → List Call → Type 0
InOrder t [] = Unit
InOrder t (c ∷ cs) = let rest = InOrder c.trip.served cs in (t ≤ c.trip.served) × rest

module _ {D : Type 0} (server : Server D) (rl : Limiter) where
  -- What Allow grants, over the calls
  unfoldable pub allowed_sum : D → List Call → ℕ
  unfolding size
  allowed_sum d [] = 0
  allowed_sum d (c ∷ cs) =
      let (d', a) = allow server rl c.n c.token c.trip d in
      let rest = allowed_sum d' cs in if a.allowed then size c.n + rest else rest

  module _ (token : Text) (trip : Trip) (d : D) (bucketed : rl.algorithm ≡ token_bucket) where
    unasked :
        (x : Double)
        → is_asked rl x trip ≡ false
        → ((allow server rl x token trip d).0 ≡ d)
          × (((allow server rl x token trip d).1.allowed && not (size x == 0)) ≡ false)
    unfolding allow is_asked size rounded ask
    unasked nan q = (refl, refl)
    unasked (infinite s) q = (refl, refl)
    unasked (finite (negsuc n)) q = (refl, refl)
    unasked (finite (pos n)) q = (ground (arith, bucketed, q), ground (arith, bucketed, q))

    asked :
        (x : Double)
        → is_asked rl x trip ≡ true
        → (let s =
              token_verdict server.hashes
                (bucket_of rl)
                d
                trip.served
                (milliseconds trip.sent)
                (size x * 1_000) in
            ((allow server rl x token trip d).0 ≡ s.0)
            × (((allow server rl x token trip d).1.allowed && not s.1.0) ≡ false))
    unfolding allow is_asked size rounded ask token_verdict
    asked nan q = absurd (ground (arith, q))
    asked (infinite s) q = absurd (ground (arith, q))
    asked (finite (negsuc n)) q = absurd (ground (arith, q))
    asked (finite (pos n)) q = (ground (arith, bucketed, q), ground (arith, bucketed, q))

-- One call more, which is granted only if its script grants it
add_up :
    (a b : Bool) (n x y : ℕ)
    → (a && not b) ≡ false
    → x * 1_000 ≤ y
    → (if a then n + x else x) * 1_000 ≤ (if b then n * 1_000 + y else y)
add_up a b n x y less le = ground (arith, less, le)

InOrder-earlier : (t s : ℕ) (cs : List Call) → t ≤ s → InOrder s cs → InOrder t cs
unfolding InOrder
InOrder-earlier t s [] le o = tt
InOrder-earlier t s (c ∷ cs) le (h, o) = (omega (arith, le, h), o)

-- The client's clock at the request is at most half a second from the server's when it runs the
-- script, and between two times.
abbrev pub Timely : ℕ → ℕ → Call → Type 0
Timely lo hi c =
    (milliseconds c.trip.served ≤ milliseconds c.trip.sent + 500)
    × (milliseconds c.trip.sent ≤ milliseconds c.trip.served + 500)
    × (lo ≤ milliseconds c.trip.sent)
    × (milliseconds c.trip.sent ≤ hi)

module _ (rl : Limiter) (lo hi : ℕ) where
  asks_of-Near :
      (t : ℕ) (cs : List Call)
      → InOrder t cs
      → All (Timely lo hi) cs
      → Near t (asks_of rl t cs)
        × All (λ a. lo ≤ a.now) (asks_of rl t cs)
        × All (λ a. a.now ≤ hi) (asks_of rl t cs)
  unfolding asks_of Near InOrder
  asks_of-Near t [] o ok = (tt, tt, tt)
  asks_of-Near t (c ∷ cs) (le, o) ((n, n', l, h), ok) = elim (Bool-cases (is_asked rl c.n c.trip)) [
    | inl q ↦
        let (near, from, until) = asks_of-Near c.trip.served cs o ok in
        let at : t + (c.trip.served - t) ≡ c.trip.served = omega (arith, le) in
        rw q (rw at (n, n', near), (l, from), (h, until))
    | inr q ↦ rw q (asks_of-Near t cs (InOrder-earlier t c.trip.served cs le o) ok)
  ]

module _ {D : Type 0} (server : Server D) (rl : Limiter)
    (bucketed : rl.algorithm ≡ token_bucket) where
  allowed_sum-granted :
      (t : ℕ) (d : D) (cs : List Call)
      → InOrder t cs
      → allowed_sum server rl d cs * 1_000
        ≤ granted
            (asks_of rl t cs)
            (run (token_verdict server.hashes (bucket_of rl)) t d (asks_of rl t cs))
  unfolding asks_of allowed_sum granted run InOrder
  allowed_sum-granted t d [] o = omega arith
  allowed_sum-granted t d (c ∷ cs) (le, o) = elim (Bool-cases (is_asked rl c.n c.trip)) [
    | inl q ↦
        let (same, less) = asked server rl c.token c.trip d bucketed c.n q in
        let at : t + (c.trip.served - t) ≡ c.trip.served = omega (arith, le) in
        let (d', a) : D × Answer = allow server rl c.n c.token c.trip d in
        let script = token_verdict server.hashes (bucket_of rl) in
        let s = script d c.trip.served (milliseconds c.trip.sent) (size c.n * 1_000) in
        let as' = asks_of rl c.trip.served cs in
        let rest : allowed_sum server rl d' cs * 1_000
            ≤ granted as' (run script c.trip.served s.0 as') =
          subst
            (λ u.
              allowed_sum server rl d' cs * 1_000 ≤ granted as' (run script c.trip.served u as'))
            same (allowed_sum-granted c.trip.served d' cs o) in
        let sum =
          add_up a.allowed s.1.0 (size c.n) (allowed_sum server rl d' cs)
            (granted as' (run script c.trip.served s.0 as')) less rest in
        rw q (rw at sum)
    | inr q ↦
        let (same, less) = unasked server rl c.token c.trip d bucketed c.n q in
        let rest = allowed_sum-granted t d cs (InOrder-earlier t c.trip.served cs le o) in
        rw (q, same) (ground (arith, less, rest))
  ]

module _ {D : Type 0} (server : Server D) (laws : HashLaws server.hashes) (rl : Limiter) where
  -- From a deleted key on, Allow with a token bucket grants to all its clients together at most the
  -- capacity and what the rate gives for the time between the first request and the last, whatever
  -- requests and replies are lost, if calls are listed in the order in which the server runs them
  -- and the clients' clocks are within half a second of the server's.
  pub budget :
      (t : ℕ) (d : D) (cs : List Call) (lo hi : ℕ)
      → rl.algorithm ≡ token_bucket
      → 0 < rl.rate
      → InOrder t cs
      → All (Timely lo hi) cs
      → allowed_sum server rl (server.hashes.del d t rl.key) cs * 1_000
        ≤ rl.capacity * 1_000 + (hi - lo) * rl.rate
  unfolding bucket_of later
  budget t d cs lo hi bucketed some_rate o ok =
      let (near, from, until) = asks_of-Near rl lo hi t cs o ok in
      le_trans (allowed_sum-granted server rl bucketed t (server.hashes.del d t rl.key) cs o) (
        token_bound server.hashes laws (bucket_of rl) t d [] (asks_of rl t cs) lo hi some_rate near
          tt from until)
