-- ===== src/Redis/Memory/HashProofs.antt =====
-- Hashes in memory, and that they have the laws of Redis.
use distsync.Common.{
  ℕ, ◌+◌, ◌*◌, ◌≤◌, ◌≡◌, ◌⊎◌, inl, inr, false, Bool-cases, Option, none, some, Text, arith,
  if◌then◌else◌,
}
use distsync.Common.Int.{ℤ}
use distsync.Redis.Commands.{millisecond}
use distsync.Redis.Hashes.{Hashes, HashLaws}
use distsync.Redis.Memory.{alive, put}

pub record Hash : Type 0 where
  pub amounts : Text → Option ℤ
  pub ts : Option ℕ
  pub until : Option ℕ

abbrev pub Table : Type 0
Table = Text → Hash

unfoldable pub amount : Table → ℕ → Text → Text → Option ℤ
amount h t k f = if alive (h k).until t then (h k).amounts f else none

unfoldable pub stamp : Table → ℕ → Text → Option ℕ
stamp h t k = if alive (h k).until t then (h k).ts else none

unfoldable pub hset : Table → ℕ → Text → Text → ℤ → ℕ → Table
unfolding put
hset h t k f v now =
    let kept = alive (h k).until t in
    put h k (record {
      amounts = put (if kept then (h k).amounts else (λ _. none)) f (some v);
      ts = some now;
      until = if kept then (h k).until else none;
    })

unfoldable pub expire : Table → ℕ → Text → ℕ → Table
unfolding put
expire h t k ms =
    if alive (h k).until t
    then put h k
        (record { amounts = (h k).amounts; ts = (h k).ts; until = some (t + ms * millisecond) })
    else h

unfoldable pub delete : Table → Text → Table
unfolding put
delete h k = put h k (record { amounts = λ _. none; ts = none; until = none })

abbrev pub memory_hashes : Hashes Table
memory_hashes = record {
  amount = amount;
  stamp = stamp;
  hset = hset;
  pexpire = expire;
  del = λ h t k. delete h k;
}

pub lapsed : (u : Option ℕ) (t t' : ℕ) → t ≤ t' → alive u t ≡ false → alive u t' ≡ false
lapsed none t t' le e = e
lapsed (some u) t t' le e = ground arith

after_expire :
    (h : Table) (t t' : ℕ) (k f : Text) (ms : ℕ)
    → t ≤ t'
    → ((amount (expire h t k ms) t' k f ≡ amount h t k f)
        × (stamp (expire h t k ms) t' k ≡ stamp h t k))
      ⊎ ((t + ms * millisecond ≤ t')
          × (amount (expire h t k ms) t' k f ≡ none)
          × (stamp (expire h t k ms) t' k ≡ none))
unfolding amount stamp expire put
after_expire h t t' k f ms le = elim (Bool-cases (alive (h k).until t)) [
  | inl e ↦ elim (Bool-cases (alive (some (t + ms * millisecond)) t')) [
    | inl e' ↦ inl (ground (arith, e, e'), ground (arith, e, e'))
    | inr e' ↦ inr (ground (arith, e'), ground (arith, e, e'), ground (arith, e, e'))
  ]
  | inr e ↦
      let e' = lapsed (h k).until t t' le e in inl (ground (arith, e, e'), ground (arith, e, e'))
]

pub memory_hash_laws : HashLaws memory_hashes
unfolding amount stamp hset expire delete put
memory_hash_laws = record {
  amount-hset = λ h t k f v now. ground arith;
  stamp-hset = λ h t k f v now. ground arith;
  after_pexpire = after_expire;
  amount-del = λ h t t' k f le. ground arith;
  stamp-del = λ h t t' k le. ground arith;
}
