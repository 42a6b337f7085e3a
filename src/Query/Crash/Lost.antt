-- ===== src/Query/Crash/Lost.antt =====
-- What the log cannot make good: a key that was persisted before its first deadline.
use dbx_database_extreme.Base.{
  ℕ, ◌≡◌, refl, ◌<◌, ◌≤◌, ◌^◌, ap, false, Bytes, none, some, [], ◌∷◌, arith, eqb_refl, pos, eqb_ℤ,
}
use dbx_database_extreme.Engine.Entry.{Entry, bytes_value, type_string, is_expired}
use dbx_database_extreme.Engine.Kv.{KvStore, get, live, persist, persist_entry, store, delete_keys}
use dbx_database_extreme.Engine.Kv.Expiry.{find-delete_keys}
use dbx_database_extreme.Engine.Kv.Shards.{IsSharded, find-store}
use dbx_database_extreme.Persistence.Recovery.{
  replay_effects, apply_recovered_effect, after_effect, recover_expire,
}
use dbx_database_extreme.Query.Effects.{put, expiry, persist_effect}
use dbx_database_extreme.Query.Crash.View.{view}
use dbx_database_extreme.Query.Crash.Replayed.{recover_set-due}
use dbx_database_extreme.Query.Crash.Written.{IsHeld}

due-gone :
    (kv : KvStore) (key : Bytes) (r : ℕ)
    → IsSharded kv
    → get (delete_keys kv (key ∷ [])).1 key (pos r) ≡ none
unfolding get live
due-gone kv key r h = rw (find-delete_keys kv (key ∷ []) key h, eqb_refl key)

persist-gone :
    (kv : KvStore) (key : Bytes) (r : ℕ)
    → get kv key (pos r) ≡ none
    → (persist kv key (pos r)).1 ≡ kv
unfolding persist get
persist-gone kv key r g = rw (g, persist_entry)

-- Replayed behind its deadline, a string is deleted, and PERSIST finds nothing.
replay-due :
    (kv : KvStore) (key b : Bytes) (d r l : ℕ)
    → IsSharded kv
    → 0 < d
    → d ≤ r
    → r < 2 ^ 63
    → (kv' : KvStore) × (replay_effects
          (λ i. pos r)
          0
          kv
          (put key b (pos d) ∷ expiry key (pos 0) ∷ [])
        ≡ some kv')
      × (view kv' key l ≡ none)
unfolding replay_effects after_effect apply_recovered_effect recover_expire put expiry live
replay-due kv key b d r l h p q m =
    let gone = due-gone kv key r h in
    (
      (delete_keys kv (key ∷ [])).1,
      rw (recover_set-due kv (put key b (pos d)) d r refl p q m)
          (ap some (persist-gone (delete_keys kv (key ∷ [])).1 key r gone)),
      rw (find-delete_keys kv (key ∷ []) key h, eqb_refl key),
    )

-- Executed in time, PERSIST keeps the string for ever.
persist-kept :
    (kv : KvStore) (key : Bytes) (n l : ℕ) (w : IsHeld kv key n)
    → IsSharded kv
    → 0 < w.due
    → view (persist kv key (pos n)).1 key l ≡ some (bytes_value w.held, type_string, pos 0)
unfolding live is_expired
persist-kept kv key n l w h p =
    let timed : eqb_ℤ (w.entry.expires_at) (pos 0) ≡ false = ground (arith, w.has_deadline, p) in
    let e : Entry = record (w.entry) { expires_at = pos 0 } in
    let left : (persist kv key (pos n)).1 ≡ store kv key e =
      unfold persist get in rw (w.found, persist_entry, timed) in
    rw left (rw (find-store kv h key e key, eqb_refl key) (rw (w.has_value, w.has_typ)))

-- A string with a deadline that PERSIST finds in time is kept for ever, but the log loses it: a recovery
-- from the deadline on of the effects that set it and made it persistent leaves no key.
pub persist-lost :
    (kv base : KvStore) (key : Bytes) (n r l : ℕ) (w : IsHeld kv key n)
    → IsSharded kv
    → IsSharded base
    → 0 < w.due
    → w.due ≤ r
    → r < 2 ^ 63
    → (view (persist kv key (pos n)).1 key l ≡ some (bytes_value w.held, type_string, pos 0))
      × (persist_effect key (get kv key (pos n)) ≡ expiry key (pos 0) ∷ [])
      × ((kv' : KvStore) × (replay_effects
              (λ i. pos r)
              0
              base
              (put key w.held (pos w.due) ∷ expiry key (pos 0) ∷ [])
            ≡ some kv')
          × (view kv' key l ≡ none))
unfolding persist_effect
persist-lost kv base key n r l w h g p q m =
    let timed : eqb_ℤ (w.entry.expires_at) (pos 0) ≡ false = ground (arith, w.has_deadline, p) in
    (
      persist-kept kv key n l w h p,
      rw (w.found, persist_effect, timed),
      replay-due base key w.held w.due r l g p q m,
    )
