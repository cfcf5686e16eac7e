-- ===== src/Redis/Memory/StringProofs.antt =====
-- The strings in memory have the laws of Redis.
use distsync.Common.{
  ℕ, ◌+◌, ◌*◌, ◌<◌, ◌≤◌, ◌≡◌, ◌≢◌, refl, true, Option, none, some, Text, arith, if◌then◌else◌,
}
use distsync.Common.Decimal.{decimal, to_number-decimal}
use distsync.Redis.Commands.{StringLaws, millisecond, is_some}
use distsync.Redis.Memory.{
  Entry, Memory, alive, value_at, get, set_px, pexpire, del, next, incr, memory_strings,
}

alive_earlier : (u : Option ℕ) (t t' : ℕ) → t ≤ t' → alive u t' ≡ true → alive u t ≡ true
alive_earlier none t t' le e = e
alive_earlier (some u) t t' le e = ground arith

value_earlier :
    (o : Option Entry) (t t' : ℕ) (v : Text)
    → t ≤ t'
    → value_at o t' ≡ some v
    → value_at o t ≡ some v
value_earlier none t t' v le e = e
value_earlier (some o) t t' v le e = ground (arith, alive_earlier o.until t t' le)

get_earlier :
    (m : Memory) (k : Text) (t t' : ℕ) (v : Text)
    → t ≤ t'
    → get m t' k ≡ some v
    → get m t k ≡ some v
unfolding get
get_earlier m k t t' v le e = value_earlier (m.strings k) t t' v le e

get-set_px_before :
    (m : Memory) (t t' : ℕ) (k v : Text) (ms : ℕ)
    → t ≤ t'
    → t' < t + ms * millisecond
    → get (set_px m t k v ms) t' k ≡ some v
unfolding get set_px
get-set_px_before m t t' k v ms le lt = ground arith

get-set_px_after :
    (m : Memory) (t t' : ℕ) (k v : Text) (ms : ℕ)
    → t + ms * millisecond + millisecond ≤ t'
    → get (set_px m t k v ms) t' k ≡ none
unfolding get set_px
get-set_px_after m t t' k v ms le = ground arith

get-set_px_other :
    (m : Memory) (t t' : ℕ) (k v : Text) (ms : ℕ) (k' : Text)
    → k ≢ k'
    → t ≤ t'
    → get (set_px m t k v ms) t' k' ≡ get m t' k'
unfolding get set_px
get-set_px_other m t t' k v ms k' ne le = ground arith

get-pexpire_before :
    (m : Memory) (t t' : ℕ) (k v : Text) (ms : ℕ)
    → get m t k ≡ some v
    → t ≤ t'
    → t' < t + ms * millisecond
    → get (pexpire m t k ms) t' k ≡ some v
unfolding get pexpire
get-pexpire_before m t t' k v ms e le lt = ground arith

get-pexpire_after :
    (m : Memory) (t t' : ℕ) (k : Text) (ms : ℕ)
    → t + ms * millisecond + millisecond ≤ t'
    → get (pexpire m t k ms) t' k ≡ none
unfolding get pexpire
get-pexpire_after m t t' k ms le = ground arith

get-pexpire_other :
    (m : Memory) (t t' : ℕ) (k : Text) (ms : ℕ) (k' : Text)
    → k ≢ k'
    → t ≤ t'
    → get (pexpire m t k ms) t' k' ≡ get m t' k'
unfolding get pexpire
get-pexpire_other m t t' k ms k' ne le = ground arith

del-count : (m : Memory) (t : ℕ) (k : Text) → (del m t k).1 ≡ (if is_some (get m t k) then 1 else 0)
unfolding del
del-count m t k = refl

get-del : (m : Memory) (t t' : ℕ) (k : Text) → t ≤ t' → get (del m t k).0 t' k ≡ none
unfolding get del
get-del m t t' k le = ground arith

get-del_other :
    (m : Memory) (t t' : ℕ) (k k' : Text) → k ≢ k' → t ≤ t' → get (del m t k).0 t' k' ≡ get m t' k'
unfolding get del
get-del_other m t t' k k' ne le = ground arith

incr-fresh : (m : Memory) (t : ℕ) (k : Text) → get m t k ≡ none → (incr m t k).1 ≡ 1
unfolding incr
incr-fresh m t k e = ground arith

get-incr_fresh :
    (m : Memory) (t t' : ℕ) (k : Text)
    → get m t k ≡ none
    → t ≤ t'
    → get (incr m t k).0 t' k ≡ some (decimal 1)
unfolding get incr
get-incr_fresh m t t' k e le = ground arith

next-decimal : (n : ℕ) → next (some (decimal n)) ≡ n + 1
next-decimal n = rw (next, to_number-decimal n)

incr-counter :
    (m : Memory) (t : ℕ) (k : Text) (n : ℕ) → get m t k ≡ some (decimal n) → (incr m t k).1 ≡ n + 1
unfolding incr
incr-counter m t k n e = rw e (next-decimal n)

get-incr_counter :
    (m : Memory) (t t' : ℕ) (k : Text) (n : ℕ)
    → t ≤ t'
    → get m t' k ≡ some (decimal n)
    → get (incr m t k).0 t' k ≡ some (decimal (n + 1))
unfolding get incr
get-incr_counter m t t' k n le e =
    ground (arith, get_earlier m k t t' (decimal n) le e, next-decimal n)

get-incr_other :
    (m : Memory) (t t' : ℕ) (k k' : Text) → k ≢ k' → t ≤ t' → get (incr m t k).0 t' k' ≡ get m t' k'
unfolding get incr
get-incr_other m t t' k k' ne le = ground arith

pub memory_string_laws : StringLaws memory_strings
memory_string_laws = record {
  get_earlier = get_earlier;
  exists_lem = λ m t k. refl;
  get-set_px_before = get-set_px_before;
  get-set_px_after = get-set_px_after;
  get-set_px_other = get-set_px_other;
  set_nx_px_lem = λ m t k v ms. refl;
  get-pexpire_before = get-pexpire_before;
  get-pexpire_after = get-pexpire_after;
  get-pexpire_other = get-pexpire_other;
  del-count = del-count;
  get-del = get-del;
  get-del_other = get-del_other;
  incr-fresh = incr-fresh;
  get-incr_fresh = get-incr_fresh;
  incr-counter = incr-counter;
  get-incr_counter = get-incr_counter;
  get-incr_other = get-incr_other;
}
