-- ===== src/Query/Crash/Between.antt =====
-- A key that expires between the two readings of the clock of an INCR: the effect is prepared before the deadline,
-- the handler runs behind it.
use dbx_database_extreme.Base.{
  ℕ, ◌≡◌, refl, ◌∙◌, ap, ◌<◌, ◌≤◌, ◌^◌, false, true, Bytes, none, some, [], ◌∷◌, arith, eqb_refl, ℤ,
  pos, eqb_ℤ, ltb_ℤ, ◌+ℤ◌, wrap64, IsInt64,
}
use dbx_database_extreme.Util.Decimal.{parse_int, format_int}
use dbx_database_extreme.Engine.Entry.{bytes_value, type_string, is_expired}
use dbx_database_extreme.Engine.Kv.{KvStore, get, live, delete_keys}
use dbx_database_extreme.Engine.Kv.Expiry.{find-delete_keys}
use dbx_database_extreme.Engine.Kv.Shards.{IsSharded}
use dbx_database_extreme.Engine.Strings.{incr}
use dbx_database_extreme.Persistence.Recovery.{replay_effects, apply_recovered_effect, after_effect}
use dbx_database_extreme.Query.Effects.{put, string_state, state_of, incr_effect, sum_effect}
use dbx_database_extreme.Query.Crash.View.{view, last_view, IsClean}
use dbx_database_extreme.Query.Crash.Replayed.{recover_set-due}
use dbx_database_extreme.Query.Crash.Updated.{incr-IsStep}
use dbx_database_extreme.Query.Crash.Written.{IsHeld, get-find}

expired-get :
    (kv : KvStore) (key : Bytes) (n m : ℕ) (w : IsHeld kv key n)
    → 0 < w.due
    → w.due < m
    → get kv key (pos m) ≡ none
unfolding get live is_expired
expired-get kv key n m w p q =
    let timed : eqb_ℤ (w.entry.expires_at) (pos 0) ≡ false = ground (arith, w.has_deadline, p) in
    let over : ltb_ℤ (w.entry.expires_at) (pos m) ≡ true = ground (arith, w.has_deadline, q) in
    rw (get-find kv key (pos n) w.entry w.found, live, timed, over) refl

-- The number starts anew.
expired-incr :
    (kv : KvStore) (key : Bytes) (by : ℤ) (m l : ℕ)
    → IsClean kv
    → IsSharded kv
    → IsInt64 by
    → get kv key (pos m) ≡ none
    → m < l
    → view (incr kv key by (pos m)).1 key l
      ≡ some (bytes_value (format_int (wrap64 (pos 0 +ℤ by))), type_string, pos 0)
unfolding incr_effect sum_effect put string_state state_of
expired-incr kv key by m l c h i gone q =
    let b = format_int (wrap64 (pos 0 +ℤ by)) in
    let anew : incr_effect key (string_state kv key (pos m)) (some by) ≡ put key b (pos 0) ∷ [] =
      ap (λ o. incr_effect key (state_of o) (some by)) gone in
    (incr-IsStep kv c h key m by i).follows key l q
    ∙ ap (λ es. last_view es key l (view kv key l)) anew
    ∙ rw (eqb_refl key) refl

replay-put_due :
    (kv : KvStore) (key b : Bytes) (d r l : ℕ)
    → IsSharded kv
    → 0 < d
    → d ≤ r
    → r < 2 ^ 63
    → (kv' : KvStore) × (replay_effects (λ i. pos r) 0 kv (put key b (pos d) ∷ []) ≡ some kv')
      × (view kv' key l ≡ none)
unfolding replay_effects after_effect apply_recovered_effect put live
replay-put_due kv key b d r l h p q m = (
  (delete_keys kv (key ∷ [])).1,
  rw (recover_set-due kv (put key b (pos d)) d r refl p q m) refl,
  rw (find-delete_keys kv (key ∷ []) key h, eqb_refl key) refl,
)

-- A counter with a deadline is prepared for INCR in time, and the handler runs behind the deadline. The
-- store then counts from zero, in a key that stays for ever; the log holds the old count, with the deadline;
-- a recovery behind the deadline leaves no key.
pub incr-lost :
    (kv base : KvStore) (key : Bytes) (n m r l : ℕ) (c by : ℤ) (w : IsHeld kv key n)
    → IsClean kv
    → IsSharded kv
    → IsSharded base
    → IsInt64 by
    → parse_int w.held ≡ some c
    → 0 < w.due
    → w.due < m
    → m < l
    → w.due ≤ r
    → r < 2 ^ 63
    → (view (incr kv key by (pos m)).1 key l
        ≡ some (bytes_value (format_int (wrap64 (pos 0 +ℤ by))), type_string, pos 0))
      × (incr_effect key (string_state kv key (pos n)) (some by)
          ≡ put key (format_int (wrap64 (c +ℤ by))) (pos w.due) ∷ [])
      × ((kv' : KvStore) × (replay_effects
              (λ i. pos r)
              0
              base
              (incr_effect key (string_state kv key (pos n)) (some by))
            ≡ some kv')
          × (view kv' key l ≡ none))
unfolding incr_effect sum_effect
incr-lost kv base key n m r l c by w clean h hb i number p q ql s t =
    let logged : incr_effect key (string_state kv key (pos n)) (some by)
        ≡ put key (format_int (wrap64 (c +ℤ by))) (pos w.due) ∷ [] =
      rw (w.has_state, incr_effect, number, sum_effect) refl in
    let (kv', replayed, gone) =
      replay-put_due base key (format_int (wrap64 (c +ℤ by))) w.due r l hb p s t in
    (
      expired-incr kv key by m l clean h i (expired-get kv key n m w p q) ql,
      logged,
      (kv', ap (replay_effects (λ j. pos r) 0 base) logged ∙ replayed, gone),
    )
