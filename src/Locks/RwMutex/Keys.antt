-- ===== src/Locks/RwMutex/Keys.antt =====
-- The six keys of a read-write lock are six different keys, whatever its name.
use distsync.Common.{◌≢◌, List, [], ◌∷◌, Text, arith, All, sym}
use mathlib.Core.List.{append_cancel_left}
use distsync.Config.{key, derived}
use distsync.Lease.ReadWrite.Exclusion.Frame.{IsApart}
use distsync.Locks.RwMutex.{rw_keys}

abbrev pub AllDifferent : List Text → Type 0
AllDifferent [] = Unit
AllDifferent (x ∷ xs) = All (λ y. x ≢ y) xs × AllDifferent xs

abbrev derive_all : Text → List Text → List Text
derive_all p [] = []
derive_all p (s ∷ ss) = derived p s ∷ derive_all p ss

derived-apart : (p s s' : Text) → s ≢ s' → derived p s ≢ derived p s'
unfolding derived
derived-apart p s s' ne e =
    let e' = append_cancel_left p (b':' ∷ s) (b':' ∷ s') e in ne (ground (arith, e'))

derive_all-apart :
    (p s : Text) (ss : List Text)
    → All (λ y. s ≢ y) ss
    → All (λ y. derived p s ≢ y) (derive_all p ss)
derive_all-apart p s [] h = tt
derive_all-apart p s (s' ∷ ss) (ne, h) = (derived-apart p s s' ne, derive_all-apart p s ss h)

derive_all-AllDifferent :
    (p : Text) (ss : List Text) → AllDifferent ss → AllDifferent (derive_all p ss)
derive_all-AllDifferent p [] h = tt
derive_all-AllDifferent p (s ∷ ss) (h, hs) =
    (derive_all-apart p s ss h, derive_all-AllDifferent p ss hs)

abbrev suffixes : List Text
suffixes =
    (b'w' ∷ b'r' ∷ b'i' ∷ b't' ∷ b'e' ∷ b'r' ∷ [])
    ∷ (b'r' ∷ b'e' ∷ b'a' ∷ b'd' ∷ b'e' ∷ b'r' ∷ b's' ∷ [])
    ∷ (b'f' ∷ b'e' ∷ b'n' ∷ b'c' ∷ b'i' ∷ b'n' ∷ b'g' ∷ [])
    ∷ (b'w' ∷ b'a' ∷ b'i' ∷ b't' ∷ b'e' ∷ b'r' ∷ b's' ∷ [])
    ∷ (b'w' ∷ b'a' ∷ b'i' ∷ b't' ∷ b'e' ∷ b'r' ∷ b'-' ∷ b't' ∷ b's' ∷ [])
    ∷ (b's' ∷ b'e' ∷ b'q' ∷ [])
    ∷ []

suffixes-AllDifferent : AllDifferent suffixes
suffixes-AllDifferent = (
  (ground arith, (ground arith, (ground arith, (ground arith, (ground arith, tt))))),
  (
    (ground arith, (ground arith, (ground arith, (ground arith, tt)))),
    (
      (ground arith, (ground arith, (ground arith, tt))),
      ((ground arith, (ground arith, tt)), ((ground arith, tt), (tt, tt))),
    ),
  ),
)

-- The keys of a lock are six different keys, whatever the name of the resource.
pub rw_keys-AllDifferent :
    (name : Text)
    → let k = rw_keys name in
      AllDifferent (k.writer ∷ k.readers ∷ k.fencing ∷ k.waiters ∷ k.waiter_ts ∷ k.seq ∷ [])
unfolding rw_keys
rw_keys-AllDifferent name = derive_all-AllDifferent (key name) suffixes suffixes-AllDifferent

pub rw_keys-IsApart : (name : Text) → IsApart (rw_keys name)
rw_keys-IsApart name =
    let w = (rw_keys-AllDifferent name).0 in
    record { fencing = λ e. w.1.0 (sym e); seq = λ e. w.1.1.1.1.0 (sym e) }
