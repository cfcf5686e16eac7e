-- ===== src/RateLimit/Limiter/Requests.antt =====
-- Which requests are asked of the server, and how Acquire waits, whatever the algorithm.
use distsync.Common.{
  ℕ, ◌≤◌, ◌≡◌, ◌⊎◌, inl, inr, refl, sym, subst, false, [], ◌∷◌, Text, arith, Bool-cases, ltb, ◌==◌,
}
use distsync.Common.Int.{pos, negsuc}
use distsync.Lease.Core.{invalid, Trip, delivered}
use distsync.RateLimit.Limiter.{
  Double, nan, infinite, finite, Limiter, Algorithm, token_bucket, fixed_window, sliding_window,
  leaky_bucket, rounded, Server, ask, allow,
}

-- A number that is not negative, and not above the capacity when it is rounded
unfoldable pub IsAdmissible : Limiter → Double → Type 0
IsAdmissible rl x = (n : ℕ) × (x ≡ finite (pos n)) × (rounded rl.algorithm n ≤ rl.capacity)

finite_eq : (m n : ℕ) → finite (pos m) ≡ finite (pos n) → m ≡ n
finite_eq m n e = cc

rounded_zero : (a : Algorithm) → rounded a 0 ≡ 0
unfolding rounded
rounded_zero token_bucket = refl
rounded_zero fixed_window = refl
rounded_zero sliding_window = refl
rounded_zero leaky_bucket = refl

module _ {D : Type 0} (server : Server D) (rl : Limiter) where
  ask-delivered :
      (n : ℕ) (token : Text) (trip : Trip) (d : D)
      → trip.fate ≡ delivered
      → (ask server rl n token trip d).1.error ≡ []
  unfolding ask
  ask-delivered n token trip d f = ground (arith, f)

  -- When the server answers, Allow returns an error exactly for the requests that are not
  -- admissible, and then grants nothing and leaves the database as it was.
  pub allow_errors :
      (x : Double) (token : Text) (trip : Trip) (d : D)
      → trip.fate ≡ delivered
      → (((allow server rl x token trip d).1.error ≡ []) × IsAdmissible rl x)
        ⊎ (((allow server rl x token trip d).1.error ≡ invalid ∷ [])
            × ((allow server rl x token trip d).1.allowed ≡ false)
            × ((allow server rl x token trip d).0 ≡ d)
            × ¬ (IsAdmissible rl x))
  unfolding allow IsAdmissible
  allow_errors nan token trip d f = inr (refl, refl, refl, λ (n, e, le). absurd (ground (arith, e)))
  allow_errors (infinite s) token trip d f =
      inr (refl, refl, refl, λ (n, e, le). absurd (ground (arith, e)))
  allow_errors (finite (negsuc m)) token trip d f =
      inr (refl, refl, refl, λ (n, e, le). absurd (ground (arith, e)))
  allow_errors (finite (pos m)) token trip d f = elim (Bool-cases (m == 0)) [
    | inl z ↦ inl (
      rw z refl,
      (
        m,
        refl,
        subst (λ u. rounded rl.algorithm u ≤ rl.capacity) {x = 0} {y = m} (ground (arith, z))
            (rw (rounded_zero rl.algorithm) (omega arith)),
      ),
    )
    | inr nz ↦ elim (Bool-cases (ltb rl.capacity (rounded rl.algorithm m))) [
      | inl over ↦ inr (
        rw (nz, over) refl,
        rw (nz, over) refl,
        rw (nz, over) refl,
        λ (n, e, le). absurd (
            ground (
              arith,
              over,
              subst (λ u. rounded rl.algorithm u ≤ rl.capacity) (sym (finite_eq m n e)) le,
            )),
      )
      | inr fits ↦ inl (
        rw (nz, fits) (ask-delivered (rounded rl.algorithm m) token trip d f),
        (m, refl, ground (arith, fits)),
      )
    ]
  ]
