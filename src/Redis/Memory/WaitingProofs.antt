-- ===== src/Redis/Memory/WaitingProofs.antt =====
-- Sorted sets and hashes with a timeout in memory, and that they have the laws of Redis.
use distsync.Common.{
  ℕ, ◌+◌, ◌*◌, ◌<◌, ◌≡◌, refl, ap, ◌∙◌, true, Option, none, some, [], ◌∷◌, ◌++◌, ite, Text,
  Text_discrete, ltb, arith, if◌then◌else◌, if_pos, All,
}
use distsync.Redis.Commands.{millisecond}
use distsync.Redis.Waiting.{
  Queues, QueueLaws, Hashes, HashLaws, score_in, first_of, members_below, without, without-absent,
  Distinct,
}
use distsync.Redis.Memory.{Members, alive, put}

pub record Line : Type 0 where
  pub members : Members
  pub distinct : Distinct members
  pub until : Option ℕ

abbrev pub Lines : Type 0
Lines = Text → Line

abbrev empty : Line
empty = record { members = []; distinct = tt; until = none }

-- What is left of a key at a time.
unfoldable pub at_time : Lines → ℕ → Text → Line
at_time q t k = let l = q k in if alive l.until t then l else empty

-- In the order of the scores.
unfoldable pub insert_last : Members → Text → ℕ → Members
insert_last [] m s = (m, s) ∷ []
insert_last ((n, x) ∷ r) m s =
    let rest = insert_last r m s in if ltb s x then (m, s) ∷ (n, x) ∷ r else (n, x) ∷ rest

score_in-without :
    (l : Members) (m n : Text)
    → score_in (without l m) n ≡ ite (Text_discrete m n) none (score_in l n)
unfolding without
score_in-without [] m n = ground arith
score_in-without ((a, x) ∷ r) m n = ground (arith, score_in-without r m n)

score_in-insert_last :
    (l : Members) (m : Text) (s : ℕ) (n : Text)
    → score_in l m ≡ none
    → score_in (insert_last l m s) n ≡ ite (Text_discrete m n) (some s) (score_in l n)
unfolding insert_last
score_in-insert_last [] m s n e = refl
score_in-insert_last ((a, x) ∷ r) m s n e = ground (arith, score_in-insert_last r m s n)

pub without-Distinct : (l : Members) (m : Text) → Distinct l → Distinct (without l m)
unfolding without
without-Distinct [] m d = tt
without-Distinct ((a, x) ∷ r) m d =
    ground (arith, without-Distinct r m d.1, score_in-without r m a, d.0)

pub insert_last-Distinct :
    (l : Members) (m : Text) (s : ℕ)
    → score_in l m ≡ none
    → Distinct l
    → Distinct (insert_last l m s)
unfolding insert_last
insert_last-Distinct [] m s e d = (refl, tt)
insert_last-Distinct ((a, x) ∷ r) m s e d =
    ground (arith, insert_last-Distinct r m s, score_in-insert_last r m s a, d.0, d.1)

insert_last_end :
    (l : Members) (m : Text) (s : ℕ) → All (λ e. e.1 < s) l → insert_last l m s ≡ l ++ (m, s) ∷ []
unfolding insert_last
insert_last_end [] m s h = refl
insert_last_end ((a, x) ∷ r) m s (lt, h) = ground (arith, insert_last_end r m s h)

pub gone : (l : Members) (m : Text) → score_in (without l m) m ≡ none
gone l m = rw (score_in-without l m m, if_pos (Text_discrete m m) refl) refl

unfoldable pub queue_zadd : Lines → ℕ → Text → ℕ → Text → Lines
unfolding at_time insert_last put without
queue_zadd q t k s m =
    let l = at_time q t k in
    put q k (record {
      members = insert_last (without l.members m) m s;
      distinct =
          insert_last-Distinct (without l.members m) m s (gone l.members m)
            (without-Distinct l.members m l.distinct);
      until = l.until;
    })

unfoldable pub queue_zrem : Lines → ℕ → Text → Text → Lines
unfolding at_time put without
queue_zrem q t k m =
    let l = at_time q t k in
    put q k (record {
      members = without l.members m;
      distinct = without-Distinct l.members m l.distinct;
      until = l.until;
    })

unfoldable pub expire : Lines → ℕ → Text → ℕ → Lines
unfolding at_time put
expire q t k ms =
    let l = at_time q t k in put q k (record l { until = some (t + ms * millisecond) })

abbrev pub memory_queues : Queues Lines
memory_queues = record {
  range = λ q t k. (at_time q t k).members;
  zscore = λ q t k m. score_in (at_time q t k).members m;
  head = λ q t k. first_of (at_time q t k).members;
  below = λ q t k max. members_below (at_time q t k).members max;
  zadd = queue_zadd;
  zrem = queue_zrem;
  pexpire = expire;
}

-- A key is alive at the time of its last command.
alive-at_time : (q : Lines) (t : ℕ) (k : Text) → alive (at_time q t k).until t ≡ true
unfolding at_time
alive-at_time q t k = ground arith

at_time-put :
    (q : Lines) (t : ℕ) (k : Text) (l : Line) → alive l.until t ≡ true → at_time (put q k l) t k ≡ l
unfolding at_time put
at_time-put q t k l e = ground (arith, e)

pub memory_queue_laws : QueueLaws memory_queues
unfolding queue_zadd queue_zrem expire
memory_queue_laws = record {
  zscore_lem = λ q t k m. refl;
  head_lem = λ q t k. refl;
  below_lem = λ q t k max. refl;
  range-Distinct = λ q t k. (at_time q t k).distinct;
  range-zadd_last = λ q t k s m e h.
      ap (λ l. l.members) (at_time-put q t k _ (alive-at_time q t k))
      ∙ rw (without-absent (at_time q t k).members m e)
          (insert_last_end (at_time q t k).members m s h);
  range-zrem = λ q t k m. ap (λ l. l.members) (at_time-put q t k _ (alive-at_time q t k));
  range-pexpire = λ q t k ms pos. ap (λ l. l.members) (at_time-put q t k _ (ground (arith, pos)));
}

-- Fields with their values; the newest comes first.
pub record Fields : Type 0 where
  pub fields : Members
  pub until : Option ℕ

abbrev pub Tables : Type 0
Tables = Text → Fields

unfoldable pub fields_at : Tables → ℕ → Text → Fields
fields_at h t k = let f = h k in if alive f.until t then f else record { fields = []; until = none }

unfoldable pub hset : Tables → ℕ → Text → Text → ℕ → Tables
unfolding fields_at put
hset h t k f v = let l = fields_at h t k in put h k (record l { fields = (f, v) ∷ l.fields })

unfoldable pub hdel : Tables → ℕ → Text → Text → Tables
unfolding fields_at put without
hdel h t k f = let l = fields_at h t k in put h k (record l { fields = without l.fields f })

unfoldable pub hpexpire : Tables → ℕ → Text → ℕ → Tables
unfolding fields_at put
hpexpire h t k ms =
    let l = fields_at h t k in put h k (record l { until = some (t + ms * millisecond) })

abbrev pub memory_hashes : Hashes Tables
memory_hashes = record {
  hget = λ h t k f. score_in (fields_at h t k).fields f;
  hset = hset;
  hdel = hdel;
  hpexpire = hpexpire;
}

alive-fields_at : (h : Tables) (t : ℕ) (k : Text) → alive (fields_at h t k).until t ≡ true
unfolding fields_at
alive-fields_at h t k = ground arith

fields_at-put :
    (h : Tables) (t : ℕ) (k : Text) (l : Fields)
    → alive l.until t ≡ true
    → fields_at (put h k l) t k ≡ l
unfolding fields_at put
fields_at-put h t k l e = ground (arith, e)

pub memory_hash_laws : HashLaws memory_hashes
unfolding hset hdel hpexpire
memory_hash_laws = record {
  hget-hset = λ h t k f v f'.
      ap (λ l. score_in l.fields f') (fields_at-put h t k _ (alive-fields_at h t k));
  hget-hdel = λ h t k f f'.
      ap (λ l. score_in l.fields f') (fields_at-put h t k _ (alive-fields_at h t k))
      ∙ score_in-without (fields_at h t k).fields f f';
  hget-hpexpire =
      λ h t k ms f pos. ap (λ l. score_in l.fields f) (fields_at-put h t k _ (ground (arith, pos)));
}
