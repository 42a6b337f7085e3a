-- ===== src/Examples/Replay.antt =====
-- A replay of two records, and a cache of two entries.
use dbx_database_extreme.Base.{
  ℕ, ◌≤◌, ◌≡◌, refl, Bytes, some, List, [], ◌∷◌, arith, codes, pos, inl, All, suc, length, take,
}
use dbx_database_extreme.Engine.Kv.{KvStore, new, find}
use dbx_database_extreme.Engine.Kv.Shards.{new-IsSharded}
use dbx_database_extreme.Persistence.Wal.Encode.{WalRecord, record_set, expand_effects}
use dbx_database_extreme.Persistence.Recovery.{replay, pending}
use dbx_database_extreme.Persistence.Recovery.Sound.{
  IsPlain, value_of, last_value, replay-last_value,
}
use dbx_database_extreme.Cache.Lru.{unlink, CacheEntry, cache_set}
use dbx_database_extreme.Cache.Lru.Sound.{cache_set-take}

abbrev logged : ℕ → Bytes → WalRecord
logged sequence value = record {
  typ = record_set;
  key = codes "k";
  value = value;
  ttl_nano = pos 0;
  timestamp = pos 5;
  sequence = sequence;
  effects = [];
}

abbrev log : List WalRecord
log = logged 1 (codes "old") ∷ logged 2 (codes "a") ∷ logged 3 (codes "b") ∷ []

log-IsPlain : All IsPlain (pending 1 log)
unfolding pending expand_effects
log-IsPlain = (inl (refl, refl), (inl (refl, refl), tt))

replay-last_value_example :
    (kv' : KvStore) × (replay (λ n. pos n) (new (pos 2)) 1 log ≡ some kv')
    × (value_of (find kv' (codes "k"))
        ≡ last_value (pending 1 log) (codes "k") (value_of (find (new (pos 2)) (codes "k"))))
replay-last_value_example =
    replay-last_value (λ n. pos n) (new (pos 2)) 1 log (codes "k") (new-IsSharded (pos 2))
      log-IsPlain

abbrev cached : Bytes → CacheEntry ℕ
cached key = record { key = key; value = 7; expires_at = pos 0 }

-- The entry at the back makes room.
cache_set-take_example :
    (cache_set 3
        (record { capacity = pos 2; entries = cached (codes "x") ∷ cached (codes "y") ∷ [] })
        (codes "z")
        9
        (pos 0)
        (pos 5)
      ≡ some (record {
        capacity = pos 2;
        entries =
            record { key = codes "z"; value = 9; expires_at = pos 0 }
            ∷ take 1 (unlink (codes "z") (cached (codes "x") ∷ cached (codes "y") ∷ []));
      }))
    × (suc (length (take 1 (unlink (codes "z") (cached (codes "x") ∷ cached (codes "y") ∷ []))))
        ≤ 2)
cache_set-take_example =
    cache_set-take 1 (cached (codes "x") ∷ cached (codes "y") ∷ []) (codes "z") 9 (pos 0) (pos 5)
      (omega arith)
