-- ===== src/Cache/Lru/Sound.antt =====
-- The bound on the number of entries, and the loop that makes room.
use dbx_database_extreme.Base.{
  ℕ, zero, suc, ◌-◌, ◌≤◌, ◌<◌, ◌≡◌, refl, sym, ap, ◌∙◌, take, length-take, Bytes, none, some, List,
  [], ◌∷◌, arith, length, ℤ, pos, leb_ℤ, ltb_ℤ, ◌≤ℤ◌, wrap64, ◌+ℤ◌, if◌then◌else◌, Bool-cases,
  Option-cases, inl, inr,
}
use dbx_database_extreme.Cache.Lru.{
  CacheEntry, LruCache, item, unlink, evict, make_room, push_entry, cache_set_found, cache_set,
}

module _ {V : Type 0} where
  length-evict : (es : List (CacheEntry V)) → length (evict es) ≡ length es - 1
  unfolding evict
  length-evict [] = omega arith
  length-evict (e ∷ []) = omega arith
  length-evict (e ∷ f ∷ es) = omega (arith, length-evict (f ∷ es))

  take-evict : (n : ℕ) (es : List (CacheEntry V)) → n < length es → take n (evict es) ≡ take n es
  unfolding evict
  take-evict zero es h = refl
  take-evict (suc n) [] h = absurd (omega arith)
  take-evict (suc n) (e ∷ []) h = absurd (omega arith)
  take-evict (suc n) (e ∷ f ∷ es) h = ap (λ r. e ∷ r) (take-evict n (f ∷ es) (omega arith))

  take_whole : (n : ℕ) (es : List (CacheEntry V)) → length es ≤ n → take n es ≡ es
  take_whole zero [] h = refl
  take_whole zero (e ∷ es) h = absurd (omega arith)
  take_whole (suc n) [] h = refl
  take_whole (suc n) (e ∷ es) h = ap (λ r. e ∷ r) (take_whole n es (omega arith))

  -- Any number of rounds beyond that of the entries is enough: the most recent entries stay.
  make_room-take :
      (fuel n : ℕ) (es : List (CacheEntry V))
      → length es < fuel
      → make_room fuel (pos (suc n)) es ≡ some (take n es)
  unfolding make_room
  make_room-take zero n es h = absurd (omega arith)
  make_room-take (suc fuel) n es h = elim (Bool-cases (leb_ℤ (pos (suc n)) (pos (length es)))) [
    | inl full ↦ rw full (
        make_room-take fuel n (evict es) (ground (arith, length-evict es, full))
        ∙ ap some (take-evict n es (ground (arith, full))))
    | inr room ↦ rw room (ap some (sym (take_whole n es (ground (arith, room)))))
  ]

  unlink_absent : (key : Bytes) (es : List (CacheEntry V)) → item key es ≡ none → unlink key es ≡ es
  unfolding unlink item
  unlink_absent key [] h = refl
  unlink_absent key (e ∷ es) h = ground (arith, h, unlink_absent key es)

  length-unlink : (key : Bytes) (es : List (CacheEntry V)) → length (unlink key es) ≤ length es
  unfolding unlink
  length-unlink key [] = omega arith
  length-unlink key (e ∷ es) = ground (arith, length-unlink key es)

  length-unlink-item :
      (key : Bytes) (es : List (CacheEntry V)) (e : CacheEntry V)
      → item key es ≡ some e
      → length (unlink key es) < length es
  unfolding unlink item
  length-unlink-item key [] e h = ground arith
  length-unlink-item key (x ∷ es) e h =
      ground (arith, length-unlink key es, length-unlink-item key es e)

  -- A cache of positive capacity that is not over it: `Set` ends within one round more than there are
  -- entries. It leaves the new entry in front and behind it the other entries in their order, without the
  -- old one of the key, as many of the most recent as there is room for.
  pub cache_set-take :
      (n : ℕ) (entries : List (CacheEntry V)) (key : Bytes) (value : V) (ttl_nano now : ℤ)
      → length entries ≤ suc n
      → (cache_set
            (suc (length entries))
            (record { capacity = pos (suc n); entries = entries })
            key
            value
            ttl_nano
            now
          ≡ some (record {
            capacity = pos (suc n);
            entries =
                record {
                  key = key;
                  value = value;
                  expires_at = if ltb_ℤ (pos 0) ttl_nano then wrap64 (now +ℤ ttl_nano) else pos 0;
                }
                ∷ take n (unlink key entries);
          }))
        × (suc (length (take n (unlink key entries))) ≤ suc n)
  unfolding cache_set
  cache_set-take n entries key value ttl_nano now h = (
    elim (Option-cases (item key entries)) [
      | inl absent ↦
          rw (absent, cache_set_found)
            (rw
              (
                make_room-take (suc (length entries)) n entries (omega arith),
                push_entry,
                unlink_absent key entries absent,
              )
              refl)
      | inr (old, there) ↦
          rw (there, cache_set_found)
            (rw
              (take_whole n (unlink key entries)
                (omega (arith, length-unlink-item key entries old there)))
              refl)
    ],
    omega (arith, length-take n (unlink key entries)),
  )

  -- With a capacity that is not positive, `Set` of a key that is absent never ends.
  cache_set-none :
      (fuel : ℕ) (c : LruCache V) (key : Bytes) (value : V) (ttl_nano now : ℤ)
      → c.capacity ≤ℤ pos 0
      → item key c.entries ≡ none
      → cache_set fuel c key value ttl_nano now ≡ none
  unfolding cache_set
  cache_set-none fuel c key value ttl_nano now h absent =
      rw (absent, cache_set_found) (rw (forever fuel c.capacity c.entries h, push_entry))
    where
      forever :
          (fuel : ℕ) (capacity : ℤ) (es : List (CacheEntry V))
          → capacity ≤ℤ pos 0
          → make_room fuel capacity es ≡ none
      forever zero capacity es h = unfold make_room in refl
      forever (suc fuel) capacity es h =
          unfold make_room in ground (arith, forever fuel capacity (evict es) h)
