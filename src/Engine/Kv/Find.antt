-- ===== src/Engine/Kv/Find.antt =====
-- What the methods of the store do to the map of keys that they stand for.
use dbx_database_extreme.Base.{
  ◌<◌, ◌≡◌, true, Bytes, none, some, arith, eqb, eqb_refl, if◌then◌else◌, Bool-cases, inl, inr, ℤ,
  pos, negsuc, ltb_ℤ, pos_part, neg_part, ◌+ℤ◌, wrap64, IsInt64, wrap64_small, ◌≤ℤ◌, ◌&&◌, +ℤ_parts,
  ◌^◌,
}
use dbx_database_extreme.Engine.Entry.{Value, DataType, is_expired}
use dbx_database_extreme.Engine.Kv.{
  KvStore, find, store, bump_version, written_entry, deadline_after, set_key, get,
}
use dbx_database_extreme.Engine.Kv.Shards.{
  IsSharded, find-store, find-push_expiry, find-bump_version, store-IsSharded,
  push_expiry-IsSharded, bump_version-IsSharded,
}

-- The sum of two `int64` that leaves the range comes out negative.
wrap64_over :
    (now ttl_nano : ℤ)
    → IsInt64 now
    → IsInt64 ttl_nano
    → pos (2 ^ 63) ≤ℤ now +ℤ ttl_nano
    → (pos_part (wrap64 (now +ℤ ttl_nano)) ≡ 0)
      × (0 < neg_part (wrap64 (now +ℤ ttl_nano)))
      × (ltb_ℤ (pos 0) ttl_nano ≡ true)
unfolding wrap64 ◌+ℤ◌
wrap64_over (pos n) (pos t) hn ht over = ground arith
wrap64_over (pos n) (negsuc t) hn ht over = absurd (ground arith)
wrap64_over (negsuc n) (pos t) hn ht over = absurd (ground arith)
wrap64_over (negsuc n) (negsuc t) hn ht over = absurd (ground arith)

module _ (kv : KvStore) (h : IsSharded kv) (key : Bytes) where
  module _ (value : Value) (typ : DataType) (ttl_nano now : ℤ) where
    -- `Set` writes its entry and leaves every other key alone.
    pub find-set_key :
        (j : Bytes)
        → find (set_key kv key value typ ttl_nano now) j ≡ (
            if eqb key j
            then some (written_entry kv key value typ (deadline_after now ttl_nano) now)
            else find kv j)
    unfolding set_key
    find-set_key j =
        let e = written_entry kv key value typ (deadline_after now ttl_nano) now in
        let b = bump_version-IsSharded h in
        let there = find-store (bump_version kv) b key e j in
        let pushed =
          find-push_expiry (store (bump_version kv) key e)
            (store-IsSharded (bump_version kv) b key e) key
            (record { key = key; deadline = deadline_after now ttl_nano; version = e.version }) j in
        ground (arith, there, pushed, find-bump_version kv j)

    pub set_key-IsSharded : IsSharded (set_key kv key value typ ttl_nano now)
    unfolding set_key
    set_key-IsSharded =
        let e = written_entry kv key value typ (deadline_after now ttl_nano) now in
        let s = store-IsSharded (bump_version kv) (bump_version-IsSharded h) key e in
        let p = push_expiry-IsSharded (store (bump_version kv) key e) s key in
        elim (Bool-cases (ltb_ℤ (pos 0) (deadline_after now ttl_nano))) [
          | inl c ↦ rw c (p _)
          | inr c ↦ rw c s
        ]

    deadline_cases :
        (later : ℤ)
        → pos 0 ≤ℤ now
        → IsInt64 (now +ℤ ttl_nano)
        → is_expired (written_entry kv key value typ (deadline_after now ttl_nano) now) later
          ≡ (ltb_ℤ (pos 0) ttl_nano && ltb_ℤ (now +ℤ ttl_nano) later)
    unfolding is_expired written_entry deadline_after
    deadline_cases later n r =
        rw (wrap64_small (now +ℤ ttl_nano) r) (ground (arith, +ℤ_parts now ttl_nano))

    -- With a clock that is not negative and a deadline in the range of `int64`: a key that
    -- was set is there as long as its time to live has not passed, and for ever if it has
    -- none; what other keys show is as before.
    pub get-set_key :
        (j : Bytes) (later : ℤ)
        → pos 0 ≤ℤ now
        → IsInt64 (now +ℤ ttl_nano)
        → get (set_key kv key value typ ttl_nano now) j later ≡ (
            if eqb key j
            then (if ltb_ℤ (pos 0) ttl_nano && ltb_ℤ (now +ℤ ttl_nano) later
                then none
                else some (written_entry kv key value typ (deadline_after now ttl_nano) now))
            else get kv j later)
    unfolding get
    get-set_key j later n r = rw (find-set_key j) (elim (Bool-cases (eqb key j)) [
      | inl e ↦ rw e (rw (deadline_cases later n r))
      | inr e ↦ rw e
    ])

    deadline_overflow :
        (later : ℤ)
        → pos 0 ≤ℤ now
        → pos 0 ≤ℤ later
        → IsInt64 now
        → IsInt64 ttl_nano
        → pos (2 ^ 63) ≤ℤ now +ℤ ttl_nano
        → is_expired (written_entry kv key value typ (deadline_after now ttl_nano) now) later ≡ true
    unfolding is_expired written_entry deadline_after
    deadline_overflow later n l rn rt over =
        let w = wrap64_over now ttl_nano rn rt over in rw (w.2) (ground (arith, w.0, w.1))

    -- If the clock and the time to live are in the range of `int64` and their sum is above
    -- it, the deadline wraps to a negative one: the key that was set is gone at once.
    get-set_key_overflow :
        (later : ℤ)
        → pos 0 ≤ℤ now
        → pos 0 ≤ℤ later
        → IsInt64 now
        → IsInt64 ttl_nano
        → pos (2 ^ 63) ≤ℤ now +ℤ ttl_nano
        → get (set_key kv key value typ ttl_nano now) key later ≡ none
    unfolding get
    get-set_key_overflow later n l rn rt over =
        rw (find-set_key key) (rw (eqb_refl key) (rw (deadline_overflow later n l rn rt over)))
