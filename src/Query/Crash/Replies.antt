-- ===== src/Query/Crash/Replies.antt =====
-- The replies of the handlers and their records in the log leave the store alone.
use dbx_database_extreme.Base.{
  ℕ, suc, ◌≡◌, refl, ◌∙◌, ap, Bool, true, false, Bytes, List, [], ◌∷◌, inl, inr, arith, ltb, ◌==◌,
  length, get_or, drop, ℤ, pos, negsuc, pos_part, neg_part, if◌then◌else◌, Bool-cases, Option-cases,
  wrap64, scale, map,
}
use dbx_database_extreme.Engine.Kv.{KvStore}
use dbx_database_extreme.Engine.Typed.{Answer, done, failed, panicked}
use dbx_database_extreme.Engine.Strings.SetArgs.{parse_set_args, parse_options}
use dbx_database_extreme.Persistence.Wal.Encode.{WalEffect}
use dbx_database_extreme.Query.Effects.{put, deletion}
use dbx_database_extreme.Query.Reply.{Frame}
use dbx_database_extreme.Query.Executor.{
  Executor, Log, append_log, stamped, write_to, write_wal, write_wal_all, logged_reply,
}
use dbx_database_extreme.Query.Dispatch.{answered, replied, set_done, del_done, with_kv, milli}

pub if-kv :
    (b : Bool) (p q : Bool × Executor) (kv : KvStore)
    → p.1.kv ≡ kv
    → q.1.kv ≡ kv
    → (if b then p else q).1.kv ≡ kv
if-kv true p q kv h k = h
if-kv false p q kv h k = k

pub answered-kv :
    {B : Type 0} (e : Executor) (a : Answer B) (f : B → List Frame) → (answered e a f).1.kv ≡ e.kv
unfolding answered
answered-kv e (done b) f = refl
answered-kv e (failed m) f = refl
answered-kv e panicked f = refl

module _ (accepts : Log → List WalEffect → Bool) where
  pub append_log-kv :
      (e : Executor) (log : Log) (es : List WalEffect) → (append_log accepts e log es).1.kv ≡ e.kv
  unfolding append_log
  append_log-kv e log es = if-kv (accepts log es) _ _ e.kv refl refl

  pub write_wal-kv :
      (e : Executor) (x : WalEffect) (now : ℤ) → (write_wal accepts e x now).1.kv ≡ e.kv
  unfolding write_wal write_to
  write_wal-kv e x now = elim (Option-cases e.wal) [
    | inl a ↦ ap (λ o. (write_to accepts e o (stamped x now)).1.kv) a
    | inr (log, a) ↦
        ap (λ o. (write_to accepts e o (stamped x now)).1.kv) a
        ∙ if-kv e.suppress_wal _ _ e.kv refl (append_log-kv e log (stamped x now ∷ []))
  ]

  pub write_wal_all-kv :
      (e : Executor) (es : List WalEffect) (clock : ℕ → ℤ) (n : ℕ)
      → (write_wal_all accepts e es clock n).1.kv ≡ e.kv
  unfolding write_wal_all
  write_wal_all-kv e [] clock n = refl
  write_wal_all-kv e (x ∷ es) clock n =
      let (ok, e') = write_wal accepts e x (clock n) in
      if-kv ok _ _ e.kv (write_wal_all-kv e' es clock (suc n) ∙ write_wal-kv e x (clock n))
        (write_wal-kv e x (clock n))

  pub logged_reply-kv :
      (r : Bool × Executor) (frames : List Frame) → (logged_reply r frames).1.kv ≡ r.1.kv
  unfolding logged_reply
  logged_reply-kv r frames = refl

  -- The store behind SET, DEL and MSET, however the log answers.
  pub set_done-kv :
      (e : Executor) (key value : Bytes) (t stamp : ℤ) (r : Bool × KvStore)
      → (set_done accepts e key value t stamp r).1.kv ≡ r.1
  unfolding set_done replied logged_reply
  set_done-kv e key value t stamp (true, kv) =
      write_wal-kv (with_kv e kv) (put key value (wrap64 (scale milli t))) stamp
  set_done-kv e key value t stamp (false, kv) = refl

  pub del_done-kv :
      (e : Executor) (keys : List Bytes) (r : ℕ × KvStore) (clock : ℕ → ℤ)
      → (del_done accepts e keys r clock).1.kv ≡ r.1
  unfolding del_done replied logged_reply
  del_done-kv e keys (n, kv) clock = elim (Bool-cases (ltb 0 n)) [
    | inl a ↦ rw a (write_wal_all-kv (with_kv e kv) (map deletion keys) clock 0)
    | inr a ↦ rw a
  ]

pub parsed-args :
    (args : List Bytes)
    → ltb (length args) 2 ≡ false
    → (if length args == 2
        then done (record { value = get_or args 1 []; ttl_sec = pos 0; nx = false; xx = false })
        else parse_set_args (drop 1 args))
      ≡ parse_set_args (drop 1 args)
unfolding parse_set_args parse_options
parsed-args [] h = absurd (ground (arith, h))
parsed-args (k ∷ []) h = absurd (ground (arith, h))
parsed-args (k ∷ v ∷ []) h = refl
parsed-args (k ∷ v ∷ a ∷ args) h =
    let more : (length (k ∷ v ∷ a ∷ args) == 2) ≡ false = ground arith in rw more

pub timely-pos : (t : ℤ) → neg_part t ≡ 0 → t ≡ pos (pos_part t)
timely-pos (pos n) h = refl
timely-pos (negsuc n) h = absurd (omega arith)
