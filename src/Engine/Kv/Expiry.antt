-- ===== src/Engine/Kv/Expiry.antt =====
-- `GetForWrite`, `Delete`, `Expire`, `TTL`, `Persist` and `Rename`, seen through `find`.
use dbx_database_extreme.Base.{
  ℕ, suc, ◌+◌, ◌-◌, ◌*◌, ◌/◌, ◌^◌, ◌<◌, ◌≤◌, ◌≡◌, refl, ◌∙◌, Bool, false, ◌||◌, Bytes, none, some,
  List, [], ◌∷◌, arith, eqb, eqb_iff, eqb_refl, if◌then◌else◌, Bool-cases, Option-cases, inl, inr,
  ℤ, pos, negsuc, ◌-ℤ◌, wrap64, wrap64_pos, pos_add, pos_sub, ltb,
}
use dbx_database_extreme.Engine.Entry.{Entry, is_expired}
use dbx_database_extreme.Engine.Kv.{
  KvStore, find, store, remove, bump_version, next_version, live, get, get_for_write, drop_expired,
  delete_keys, expire, deadline_in, ttl, ttl_of, second,
}
use dbx_database_extreme.Engine.Kv.Shards.{
  IsSharded, find-store, find-remove, find-push_expiry, find-bump_version, store-IsSharded,
  remove-IsSharded, bump_version-IsSharded,
}

abbrev pub contains : List Bytes → Bytes → Bool
contains [] j = false
contains (k ∷ ks) j = eqb k j || contains ks j

module _ (kv : KvStore) (h : IsSharded kv) (key : Bytes) where
  -- `GetForWrite` returns what `Get` returns; behind it the map holds just that at the key,
  -- and the other keys as before.
  pub get_for_write-get :
      (now : ℤ) (j : Bytes)
      → ((get_for_write kv key now).0 ≡ get kv key now)
        × (find (get_for_write kv key now).1 j ≡ (if eqb key j then get kv key now else find kv j))
  unfolding get_for_write get
  get_for_write-get now j = ground (arith, find-remove kv h key j, eqb_iff key j)

  pub get_for_write-IsSharded : (now : ℤ) → IsSharded (get_for_write kv key now).1
  unfolding get_for_write
  get_for_write-IsSharded now = elim (Option-cases (find kv key)) [
    | inl e ↦ rw (e, drop_expired) h
    | inr (a, e) ↦
        rw (e, drop_expired)
          (elim (Bool-cases (is_expired a now)) [
            | inl x ↦ rw x (remove-IsSharded kv h key)
            | inr x ↦ rw x h
          ])
  ]

-- `Delete` takes out exactly the keys that it is given.
pub find-delete_keys :
    (kv : KvStore) (keys : List Bytes) (j : Bytes)
    → IsSharded kv
    → find (delete_keys kv keys).1 j ≡ (if contains keys j then none else find kv j)
unfolding delete_keys
find-delete_keys kv [] j h = refl
find-delete_keys kv (key ∷ keys) j h = elim (Option-cases (find kv key)) [
  | inl e ↦ rw (e, delete_keys) (find-delete_keys kv keys j h ∙ ground (arith, eqb_iff key j))
  | inr (a, e) ↦
      rw (e, delete_keys)
        (find-delete_keys (remove kv key) keys j (remove-IsSharded kv h key)
          ∙ ground (arith, find-remove kv h key j))
]

module _ (kv : KvStore) (h : IsSharded kv) (key : Bytes) where
  -- EXPIRE with a positive time: the key keeps its value and gets the deadline.
  pub find-expire :
      (e : Entry) (s : ℕ) (now now' : ℤ) (j : Bytes)
      → get kv key now ≡ some e
      → find (expire kv key (pos (suc s)) now now').1 j ≡ (
          if eqb key j
          then some
              (record e { expires_at = deadline_in now' (pos (suc s)); version = next_version kv })
          else find kv j)
  unfolding get expire
  find-expire e s now now' j there =
      let e' : Entry = record e {
        expires_at = deadline_in now' (pos (suc s));
        version = next_version kv;
      } in
      let b = bump_version-IsSharded h in
      let pushed =
        find-push_expiry (store (bump_version kv) key e')
          (store-IsSharded (bump_version kv) b key e') key
          (record { key = key; deadline = e'.expires_at; version = e'.version }) j in
      ground (arith, there, pushed, find-store (bump_version kv) b key e' j, find-bump_version kv j)

  deadline_in_range :
      (n s : ℕ) → n + second * s < 2 ^ 63 → deadline_in (pos n) (pos s) ≡ pos (n + second * s)
  unfolding deadline_in
  deadline_in_range n s r =
      rw (wrap64_pos (second * s) (omega arith))
        (rw (pos_add n (second * s)) (wrap64_pos (n + second * s) (omega arith)))

  remaining_range : (d m : ℕ) → d < 2 ^ 63 → m ≤ d → wrap64 (pos d -ℤ pos m) ≡ pos (d - m)
  remaining_range d m hd h = rw (pos_sub d m h) (wrap64_pos (d - m) (omega arith))

  ttl_of-deadline :
      (e : Entry) (d m : ℕ)
      → 0 < d
      → d < 2 ^ 63
      → ttl_of (live (some (record e { expires_at = pos d })) (pos m)) (pos m)
        ≡ (if ltb m d then pos ((d - m) / second) else negsuc 1)
  unfolding live is_expired ttl_of
  ttl_of-deadline e d m pd hd = ground (arith, remaining_range d m hd)

  -- After EXPIRE of a live key by a positive number of seconds at time n, TTL at time m
  -- answers the whole seconds that are left, or -2 from the deadline on, if the times are in
  -- the range of `int64`.
  pub ttl-expire :
      (e : Entry) (s n m : ℕ) (now : ℤ)
      → get kv key now ≡ some e
      → n + second * suc s < 2 ^ 63
      → m < 2 ^ 63
      → ttl (expire kv key (pos (suc s)) now (pos n)).1 key (pos m) (pos m)
        ≡ (if ltb m (n + second * suc s) then pos ((n + second * suc s - m) / second) else negsuc 1)
  unfolding ttl get
  ttl-expire e s n m now there r rm = rw (find-expire e s now (pos n) key there) (
      rw (eqb_refl key) (
        rw (deadline_in_range n (suc s) r) (
          ttl_of-deadline (record e { version = next_version kv }) (n + second * suc s) m
            (omega arith) r)))
