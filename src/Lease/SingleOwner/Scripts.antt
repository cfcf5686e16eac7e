-- ===== src/Lease/SingleOwner/Scripts.antt =====
-- internal/lua/single_acquire.lua, single_renew.lua and single_release.lua, each run by the server
-- as one step at its time `now`. A script returns the database and its reply, `none` for nil.
use distsync.Common.{ℕ, Option, none, some, [], ◌∷◌, ite, Text, Text_discrete, Reply_discrete}
use distsync.Common.Decimal.{to_number}
use distsync.Redis.{Strings}

abbrev pub number_in : Option Text → Option ℕ
number_in none = none
number_in (some s) = to_number s

module _ {Db : Type 0} (redis : Strings Db) where
  open redis use {get, set_nx_px, pexpire, del, incr}

  unfoldable pub mint : Db → ℕ → Text → Text → Db × Option ℕ
  mint db now fencing_key flag =
      ite (Text_discrete flag (b'1' ∷ [])) (let (db', n) = incr db now fencing_key in (db', some n))
        (db, some 0)

  unfoldable pub single_acquire : Db → ℕ → Text → Text → Text → ℕ → Text → Db × Option ℕ
  unfolding mint
  single_acquire db now lock_key fencing_key token ttl flag =
      ite (Reply_discrete (get db now lock_key) (some token))
        (ite (Text_discrete flag (b'1' ∷ [])) (db, number_in (get db now fencing_key)) (db, some 0))
        (elim (set_nx_px db now lock_key token ttl) [
          | some db' ↦ mint db' now fencing_key flag
          | none ↦ (db, none)
        ])

  unfoldable pub single_renew : Db → ℕ → Text → Text → ℕ → Db × Option ℕ
  single_renew db now lock_key token ttl =
      ite (Reply_discrete (get db now lock_key) (some token)) (pexpire db now lock_key ttl, some 1)
        (db, some 0)

  unfoldable pub single_release : Db → ℕ → Text → Text → Db × Option ℕ
  single_release db now lock_key token =
      ite (Reply_discrete (get db now lock_key) (some token))
        (let (db', n) = del db now lock_key in (db', some n)) (db, some 0)
