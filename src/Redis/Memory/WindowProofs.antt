-- ===== src/Redis/Memory/WindowProofs.antt =====
-- Sorted sets with a timeout in memory, and that they have the laws of Redis.
use distsync.Common.{
  ℕ, ◌+◌, ◌*◌, ◌≤◌, ◌<◌, ◌≡◌, ◌≢◌, ◌⊎◌, inl, inr, refl, true, false, Bool-cases, Option,
  Option-cases, ap, none, some, [], ◌∷◌, Text, arith, if◌then◌else◌, ltb,
}
use distsync.Common.Int.{ℤ, pos, ltb_ℤ}
use distsync.Redis.Commands.{millisecond}
use distsync.Redis.Windows.{Windows, WindowLaws}
use distsync.Redis.Memory.{Members, alive, put, score, insert}
use distsync.Redis.Memory.HashProofs.{lapsed}

pub record Timed : Type 0 where
  pub members : Members
  pub until : Option ℕ

abbrev pub Sets : Type 0
Sets = Text → Timed

-- The members of a score above `min`
unfoldable pub count : ℤ → Members → ℕ
count min [] = 0
count min ((m, s) ∷ r) = let rest = count min r in if ltb_ℤ min (pos s) then 1 + rest else rest

unfoldable pub size : Members → ℕ
size [] = 0
size (e ∷ r) = 1 + size r

-- Without the members of a score up to `max`
unfoldable pub drop_to : ℤ → Members → Members
drop_to max [] = []
drop_to max ((m, s) ∷ r) =
    let rest = drop_to max r in if ltb_ℤ max (pos s) then (m, s) ∷ rest else rest

abbrev pub least : ℕ → Option ℕ → ℕ
least s none = s
least s (some s') = if ltb s' s then s' else s

unfoldable pub first : Members → Option ℕ
first [] = none
first ((m, s) ∷ r) = some (least s (first r))

unfoldable pub at : Sets → ℕ → Text → Members
at w t k = if alive (w k).until t then (w k).members else []

abbrev pub until_at : Sets → ℕ → Text → Option ℕ
until_at w t k = if alive (w k).until t then (w k).until else none

unfoldable pub store : Sets → ℕ → Text → Members → Sets
unfolding put
store w t k ms = put w k (record { members = ms; until = until_at w t k })

unfoldable pub expire : Sets → ℕ → Text → ℕ → Sets
unfolding put
expire w t k ms =
    if alive (w k).until t
    then put w k (record { members = (w k).members; until = some (t + ms * millisecond) })
    else w

unfoldable pub clear : Sets → Text → Sets
unfolding put
clear w k = put w k (record { members = []; until = none })

abbrev pub memory_windows : Windows Sets
memory_windows = record {
  zcount = λ w t k min. count min (at w t k);
  zscore = λ w t k m. score (at w t k) m;
  zcard = λ w t k. size (at w t k);
  zfirst = λ w t k. first (at w t k);
  zadd = λ w t k s m. store w t k (insert s m (at w t k));
  zremrangebyscore = λ w t k max. store w t k (drop_to max (at w t k));
  pexpire = expire;
  del = λ w t k. clear w k;
}

at-store : (w : Sets) (t : ℕ) (k : Text) (ms : Members) → at (store w t k ms) t k ≡ ms
unfolding at store put
at-store w t k ms = ground arith

count-drop_to :
    (max min : ℤ) (ms : Members) → ltb_ℤ min max ≡ false → count min (drop_to max ms) ≡ count min ms
unfolding count drop_to
count-drop_to max min [] le = refl
count-drop_to max min ((m, s) ∷ r) le = ground (arith, le, count-drop_to max min r le)

size-drop_to : (max : ℤ) (ms : Members) → size (drop_to max ms) ≡ count max ms
unfolding count drop_to size
size-drop_to max [] = refl
size-drop_to max ((m, s) ∷ r) = ground (arith, size-drop_to max r)

score-drop_to :
    (max : ℤ) (ms : Members) (m : Text) → score ms m ≡ none → score (drop_to max ms) m ≡ none
unfolding drop_to score
score-drop_to max [] m e = refl
score-drop_to max ((n, s) ∷ r) m e = ground (arith, e, score-drop_to max r m)

count-insert :
    (min : ℤ) (s : ℕ) (m : Text) (ms : Members)
    → score ms m ≡ none
    → count min (insert s m ms) ≡ count min ms + (if ltb_ℤ min (pos s) then 1 else 0)
unfolding count insert score
count-insert min s m [] e = ground arith
count-insert min s m ((n, x) ∷ r) e = ground (arith, e, count-insert min s m r)

score-insert_other :
    (s : ℕ) (m m' : Text) (ms : Members) → m ≢ m' → score (insert s m ms) m' ≡ score ms m'
unfolding insert score
score-insert_other s m m' [] ne = ground (arith, ne)
score-insert_other s m m' ((n, x) ∷ r) ne = ground (arith, ne, score-insert_other s m m' r ne)

count-size : (min : ℤ) (ms : Members) → count min ms ≤ size ms
unfolding count size
count-size min [] = omega arith
count-size min ((m, s) ∷ r) = ground (arith, count-size min r)

first_none : (ms : Members) → first ms ≡ none → size ms ≡ 0
unfolding first size
first_none [] e = refl
first_none ((m, s) ∷ r) e = absurd (ground (arith, e))

-- What `first` finds is a lower bound that is reached.
first_all :
    (ms : Members) (s : ℕ) (min : ℤ)
    → first ms ≡ some s
    → ltb_ℤ min (pos s) ≡ true
    → count min ms ≡ size ms
unfolding first size count
first_all [] s min e h = refl
first_all ((m, x) ∷ r) s min e h = elim (Option-cases (first r)) [
  | inl q ↦ ground (arith, e, h, q, first_none r q, count-size min r)
  | inr (y, q) ↦ ground (arith, e, h, q, first_all r y min q)
]

first_fewer :
    (ms : Members) (s : ℕ) (min : ℤ)
    → first ms ≡ some s
    → ltb_ℤ min (pos s) ≡ false
    → count min ms < size ms
unfolding first size count
first_fewer [] s min e h = absurd (ground (arith, e))
first_fewer ((m, x) ∷ r) s min e h = elim (Option-cases (first r)) [
  | inl q ↦ ground (arith, e, h, q, count-size min r)
  | inr (y, q) ↦ ground (arith, e, h, q, first_fewer r y min q, count-size min r)
]

after_expire :
    (w : Sets) (t t' : ℕ) (k : Text) (ms : ℕ)
    → t ≤ t'
    → (at (expire w t k ms) t' k ≡ at w t k)
      ⊎ ((t + ms * millisecond ≤ t') × (at (expire w t k ms) t' k ≡ []))
unfolding at expire put
after_expire w t t' k ms le = elim (Bool-cases (alive (w k).until t)) [
  | inl e ↦ elim (Bool-cases (alive (some (t + ms * millisecond)) t')) [
    | inl e' ↦ inl (ground (arith, e, e'))
    | inr e' ↦ inr (ground (arith, e'), ground (arith, e, e'))
  ]
  | inr e ↦ let e' = lapsed (w k).until t t' le e in inl (ground (arith, e, e'))
]

pub memory_window_laws : WindowLaws memory_windows
unfolding count size at clear put score
memory_window_laws = record {
  zcount-zremrangebyscore = λ w t k max min le.
      rw (at-store w t k (drop_to max (at w t k))) (count-drop_to max min (at w t k) le);
  zcard-zremrangebyscore =
      λ w t k max. rw (at-store w t k (drop_to max (at w t k))) (size-drop_to max (at w t k));
  zscore-zremrangebyscore = λ w t k m max e.
      rw (at-store w t k (drop_to max (at w t k))) (score-drop_to max (at w t k) m e);
  zcount-zadd = λ w t k m s min e.
      rw (at-store w t k (insert s m (at w t k))) (count-insert min s m (at w t k) e);
  zscore-zadd_other = λ w t k m m' s ne.
      rw (at-store w t k (insert s m (at w t k))) (score-insert_other s m m' (at w t k) ne);
  zfirst_all = λ w t k s min. first_all (at w t k) s min;
  zfirst_fewer = λ w t k s min. first_fewer (at w t k) s min;
  zfirst_none = λ w t k. first_none (at w t k);
  after_pexpire = λ w t t' k m min ms le. elim (after_expire w t t' k ms le) [
    | inl e ↦ inl (ap (count min) e, ap (λ l. score l m) e)
    | inr (late, e) ↦ inr (late, ap (count min) e, ap (λ l. score l m) e)
  ];
  zcount-del = λ w t t' k min le. ground arith;
  zscore-del = λ w t t' k m le. ground arith;
}
