-- ===== src/RateLimit/Limiter/Memory.antt =====
-- A server in memory for all the scripts: the three databases side by side.
use distsync.Redis.Counting.{CounterLaws}
use distsync.Redis.Hashes.{HashLaws}
use distsync.Redis.Windows.{WindowLaws}
use distsync.Redis.Memory.CounterProofs.{Counts, memory_counters, memory_counter_laws}
use distsync.Redis.Memory.HashProofs.{Table, memory_hashes, memory_hash_laws}
use distsync.Redis.Memory.WindowProofs.{Sets, memory_windows, memory_window_laws}
use distsync.RateLimit.Limiter.{Server}

abbrev pub Db : Type 0
Db = Counts × Table × Sets

abbrev pub memory_server : Server Db
memory_server = record {
  counters = record {
    value = λ d. memory_counters.value d.0;
    incrby = λ d t k n. let (c, m) = memory_counters.incrby d.0 t k n in ((c, d.1, d.2), m);
    decrby = λ d t k n. let (c, m) = memory_counters.decrby d.0 t k n in ((c, d.1, d.2), m);
    pexpire = λ d t k ms. (memory_counters.pexpire d.0 t k ms, d.1, d.2);
    del = λ d t k. (memory_counters.del d.0 t k, d.1, d.2);
  };
  hashes = record {
    amount = λ d. memory_hashes.amount d.1;
    stamp = λ d. memory_hashes.stamp d.1;
    hset = λ d t k f v now. (d.0, memory_hashes.hset d.1 t k f v now, d.2);
    pexpire = λ d t k ms. (d.0, memory_hashes.pexpire d.1 t k ms, d.2);
    del = λ d t k. (d.0, memory_hashes.del d.1 t k, d.2);
  };
  windows = record {
    zcount = λ d. memory_windows.zcount d.2;
    zscore = λ d. memory_windows.zscore d.2;
    zcard = λ d. memory_windows.zcard d.2;
    zfirst = λ d. memory_windows.zfirst d.2;
    zadd = λ d t k s m. (d.0, d.1, memory_windows.zadd d.2 t k s m);
    zremrangebyscore = λ d t k max. (d.0, d.1, memory_windows.zremrangebyscore d.2 t k max);
    pexpire = λ d t k ms. (d.0, d.1, memory_windows.pexpire d.2 t k ms);
    del = λ d t k. (d.0, d.1, memory_windows.del d.2 t k);
  };
}

pub counter_laws : CounterLaws memory_server.counters
counter_laws = record {
  incrby-count = λ d. memory_counter_laws.incrby-count d.0;
  value-incrby = λ d. memory_counter_laws.value-incrby d.0;
  value-decrby = λ d. memory_counter_laws.value-decrby d.0;
  value-pexpire = λ d. memory_counter_laws.value-pexpire d.0;
  value-del = λ d. memory_counter_laws.value-del d.0;
  value-incrby_other = λ d. memory_counter_laws.value-incrby_other d.0;
  value-decrby_other = λ d. memory_counter_laws.value-decrby_other d.0;
  value-pexpire_other = λ d. memory_counter_laws.value-pexpire_other d.0;
}

pub hash_laws : HashLaws memory_server.hashes
hash_laws = record {
  amount-hset = λ d. memory_hash_laws.amount-hset d.1;
  stamp-hset = λ d. memory_hash_laws.stamp-hset d.1;
  after_pexpire = λ d. memory_hash_laws.after_pexpire d.1;
  amount-del = λ d. memory_hash_laws.amount-del d.1;
  stamp-del = λ d. memory_hash_laws.stamp-del d.1;
}

pub window_laws : WindowLaws memory_server.windows
window_laws = record {
  zcount-zremrangebyscore = λ d. memory_window_laws.zcount-zremrangebyscore d.2;
  zcard-zremrangebyscore = λ d. memory_window_laws.zcard-zremrangebyscore d.2;
  zscore-zremrangebyscore = λ d. memory_window_laws.zscore-zremrangebyscore d.2;
  zcount-zadd = λ d. memory_window_laws.zcount-zadd d.2;
  zscore-zadd_other = λ d. memory_window_laws.zscore-zadd_other d.2;
  zfirst_all = λ d. memory_window_laws.zfirst_all d.2;
  zfirst_fewer = λ d. memory_window_laws.zfirst_fewer d.2;
  zfirst_none = λ d. memory_window_laws.zfirst_none d.2;
  after_pexpire = λ d. memory_window_laws.after_pexpire d.2;
  zcount-del = λ d. memory_window_laws.zcount-del d.2;
  zscore-del = λ d. memory_window_laws.zscore-del d.2;
}
