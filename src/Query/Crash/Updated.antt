-- ===== src/Query/Crash/Updated.antt =====
-- The commands that read the string of a key and write one: GETSET, the counters and APPEND.
use dbx_database_extreme.Base.{
  ℕ, ◌≡◌, refl, ◌<◌, ◌^◌, ◌∙◌, ap, false, Bytes, Option, none, some, [], ◌∷◌, ◌++◌, inl, inr, arith,
  eqb, eqb_sound, ℤ, pos, Bool-cases, wrap64, wrap64_small, IsInt64, ◌+ℤ◌, int_laws,
}
use dbx_database_extreme.Util.Decimal.{parse_int, format_int}
use dbx_database_extreme.Engine.Entry.{Entry, bytes_value, type_string, is_expired, fresh_entry}
use dbx_database_extreme.Engine.Kv.{
  KvStore, find, get, live, get_for_write, store, bump_version, next_version,
}
use dbx_database_extreme.Engine.Kv.Shards.{
  IsSharded, find-store, find-bump_version, store-IsSharded, bump_version-IsSharded,
}
use dbx_database_extreme.Engine.Kv.Expiry.{get_for_write-get, get_for_write-IsSharded}
use dbx_database_extreme.Engine.Typed.{
  assert_kind, opened, answer_of, inspect, get_read_only, modify, write_back, get_or_create, create,
}
use dbx_database_extreme.Engine.Typed.Sound.{assert_kind-value}
use dbx_database_extreme.Engine.Strings.{
  string_kind, get_string, get_set, get_set_step, incr, incr_found, incr_opened, incr_parsed,
  append_to,
}
use dbx_database_extreme.Query.Effects.{
  string_state, put, getset_effect, incr_effect, sum_effect, append_effect,
}
use dbx_database_extreme.Query.Crash.View.{shown, view, IsClean, IsStep, write-IsStep}
use dbx_database_extreme.Query.Crash.Replayed.{deadline_after-none}
use dbx_database_extreme.Query.Crash.Written.{IsHeld, string_state-cases, set_key-IsStep, get-find}

held-opened :
    (kv : KvStore) (key : Bytes) (n : ℕ) (w : IsHeld kv key n)
    → assert_kind string_kind w.entry ≡ opened w.entry w.held
unfolding eqb string_kind
held-opened kv key n w =
    assert_kind-value string_kind w.entry w.held (rw w.has_typ) (rw w.has_value)

live-live : (o : Option Entry) (n l : ℕ) → n < l → live (live o (pos n)) (pos l) ≡ live o (pos l)
unfolding live is_expired
live-live none n l h = refl
live-live (some e) n l h = elim (Bool-cases (is_expired e (pos n))) [
  | inl x ↦ ground (arith, x)
  | inr x ↦ ground (arith, x)
]

module _ (kv : KvStore) (c : IsClean kv) (h : IsSharded kv) (key : Bytes) (n : ℕ) where
  get_for_write-IsClean : IsClean (get_for_write kv key (pos n)).1
  get_for_write-IsClean j e f = elim (Bool-cases (eqb key j)) [
    | inl k ↦
        c key e (get-find kv key (pos n) e (rw ((get_for_write-get kv h key (pos n) j).1, k) at f))
    | inr k ↦ c j e (rw ((get_for_write-get kv h key (pos n) j).1, k) at f)
  ]

  get_for_write-view :
      (j : Bytes) (l : ℕ) → n < l → view (get_for_write kv key (pos n)).1 j l ≡ view kv j l
  get_for_write-view j l q =
      rw ((get_for_write-get kv h key (pos n) j).1) (elim (Bool-cases (eqb key j)) [
        | inl k ↦ rw k (
            ap shown (
              unfold get in
              live-live (find kv key) n l q
              ∙ ap (λ i. live (find kv i) (pos l)) (eqb_sound key j k)))
        | inr k ↦ rw k
      ])

  -- An entry that has expired goes, and no later reader sees it.
  get_for_write-IsStep : IsStep kv (get_for_write kv key (pos n)).1 [] n
  get_for_write-IsStep = record {
    final = tt;
    sharded = get_for_write-IsSharded kv h key (pos n);
    clean = get_for_write-IsClean;
    follows = get_for_write-view;
  }

  -- A string stored in a store that differs at its key only.
  store-IsStep :
      (kv1 : KvStore) (e : Entry) (b : Bytes) (d : ℕ)
      → IsSharded kv1
      → ((j : Bytes) → eqb key j ≡ false → find kv1 j ≡ find kv j)
      → e.value ≡ bytes_value b
      → e.typ ≡ type_string
      → e.expires_at ≡ pos d
      → d < 2 ^ 63
      → IsStep kv (store kv1 key e) (put key b (pos d) ∷ []) n
  store-IsStep kv1 e b d s o v t x r =
      write-IsStep kv _ key b d n c r (store-IsSharded kv1 s key e) (record {
        entry = e;
        has_value = v;
        has_typ = t;
        has_deadline = x;
        found = λ j.
            find-store kv1 s key e j
            ∙ elim (Bool-cases (eqb key j)) [ inl k ↦ rw k | inr k ↦ rw (k, o j k) ];
      })

  opened_elsewhere :
      (j : Bytes) → eqb key j ≡ false → find (get_for_write kv key (pos n)).1 j ≡ find kv j
  opened_elsewhere j k = rw ((get_for_write-get kv h key (pos n) j).1, k)

  bumped_elsewhere :
      (j : Bytes)
      → eqb key j ≡ false
      → find (bump_version (get_for_write kv key (pos n)).1) j ≡ find kv j
  bumped_elsewhere j k = find-bump_version (get_for_write kv key (pos n)).1 j ∙ opened_elsewhere j k

  -- With no string there, GETSET answers nil.
  pub get_set-IsStep :
      (b : Bytes)
      → IsStep kv
          (get_set kv key b (pos n) (pos n)).1
          (getset_effect key b (string_state kv key (pos n)))
          n
  unfolding get_set get_string inspect get_read_only getset_effect
  get_set-IsStep b =
      let s = set_key-IsStep kv c h key n b 0 0 (omega arith) (deadline_after-none n) in
      elim (string_state-cases kv key n c) [
        | inl (g, st) ↦ rw (g, st, getset_effect, answer_of, get_set_step) s
        | inr w ↦
            rw
              (w.found, w.has_state, getset_effect, held-opened kv key n w, answer_of, get_set_step)
              s
      ]

  sum-IsStep :
      (w : IsHeld kv key n) (o : Option ℤ) (by : ℤ)
      → IsStep kv
          (incr_parsed (get_for_write kv key (pos n)).1 key w.entry o by).1
          (sum_effect key o (some by) (pos w.due))
          n
  unfolding incr_parsed sum_effect
  sum-IsStep w none by = get_for_write-IsStep
  sum-IsStep w (some v) by =
      let kv1 = (get_for_write kv key (pos n)).1 in
      store-IsStep (bump_version kv1)
        (record (w.entry) {
          value = bytes_value (format_int (wrap64 (v +ℤ by)));
          version = next_version kv1;
        })
        (format_int (wrap64 (v +ℤ by))) w.due
        (bump_version-IsSharded (get_for_write-IsSharded kv h key (pos n))) bumped_elsewhere refl
        w.has_typ w.has_deadline w.in_range

  pub incr-IsStep :
      (by : ℤ)
      → IsInt64 by
      → IsStep kv
          (incr kv key by (pos n)).1
          (incr_effect key (string_state kv key (pos n)) (some by))
          n
  unfolding incr incr_effect
  incr-IsStep by r =
      let same = (get_for_write-get kv h key (pos n) key).0 in
      let kv1 = (get_for_write kv key (pos n)).1 in
      elim (string_state-cases kv key n c) [
        | inl (g, st) ↦
            let sum : wrap64 (pos 0 +ℤ by) ≡ by =
              ap wrap64 {x = pos 0 +ℤ by} (omega int_laws) ∙ wrap64_small by r in
            rw (same, g, st, incr_effect, sum_effect, incr_found, sum)
              (store-IsStep (bump_version kv1)
                (record (fresh_entry (bytes_value (format_int by)) type_string) {
                  version = next_version kv1;
                })
                (format_int by) 0
                (bump_version-IsSharded (get_for_write-IsSharded kv h key (pos n))) bumped_elsewhere
                refl refl refl (omega arith))
        | inr w ↦
            rw
              (
                same,
                w.found,
                w.has_state,
                incr_effect,
                incr_found,
                held-opened kv key n w,
                incr_opened,
              )
              (sum-IsStep w (parse_int w.held) by)
      ]

  -- APPEND to an absent key stores the empty string first.
  created-string :
      get kv key (pos n) ≡ none
      → get_or_create string_kind kv key (pos n) ≡ (
        opened (fresh_entry (bytes_value []) type_string) [],
        store (get_for_write kv key (pos n)).1 key (fresh_entry (bytes_value []) type_string),
      )
  unfolding get_or_create string_kind
  created-string g = rw ((get_for_write-get kv h key (pos n) key).0, g, create)

  found-string :
      (w : IsHeld kv key n)
      → get_or_create string_kind kv key (pos n)
        ≡ (opened w.entry w.held, (get_for_write kv key (pos n)).1)
  unfolding get_or_create
  found-string w =
      rw ((get_for_write-get kv h key (pos n) key).0, w.found, create, held-opened kv key n w)

  pub append_to-IsStep :
      (value : Bytes)
      → IsStep kv
          (append_to kv key value (pos n)).1
          (append_effect key value (string_state kv key (pos n)))
          n
  unfolding append_to append_effect modify string_kind
  append_to-IsStep value =
      let kv1 = (get_for_write kv key (pos n)).1 in
      let s1 = get_for_write-IsSharded kv h key (pos n) in
      let fresh = fresh_entry (bytes_value []) type_string in
      elim (string_state-cases kv key n c) [
        | inl (g, st) ↦
            rw
              (
                ap (λ p. p.0) (created-string g),
                ap (λ p. p.1) (created-string g),
                st,
                append_effect,
                write_back,
              )
              (store-IsStep (store kv1 key fresh) (record fresh { value = bytes_value value }) value
                0 (store-IsSharded kv1 s1 key fresh)
                (λ j k. find-store kv1 s1 key fresh j ∙ rw (k, opened_elsewhere j k)) refl refl refl
                (omega arith))
        | inr w ↦
            rw
              (
                ap (λ p. p.0) (found-string w),
                ap (λ p. p.1) (found-string w),
                w.has_state,
                append_effect,
                write_back,
              )
              (store-IsStep kv1 (record (w.entry) { value = bytes_value (w.held ++ value) })
                (w.held ++ value) w.due s1 opened_elsewhere refl w.has_typ w.has_deadline
                w.in_range)
      ]
