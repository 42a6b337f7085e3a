-- ===== src/Engine/Sets/Sound.antt =====
-- What the set operations do to the members that keys show.
use dbx_database_extreme.Base.{
  ◌≡◌, refl, sym, ◌∙◌, ap, Bool, true, false, not, ◌&&◌, ◌||◌, Bytes, some, List, [], ◌∷◌, arith,
  eqb, eqb_iff, ℤ, Bool-cases, inl, inr,
}
use dbx_database_extreme.Engine.Kv.{KvStore}
use dbx_database_extreme.Engine.Kv.Shards.{IsSharded}
use dbx_database_extreme.Engine.Typed.{done, contents}
use dbx_database_extreme.Engine.Typed.Sound.{modify-here, inspect-contents}
use dbx_database_extreme.Engine.Sets.{
  set_kind, has, put, discard, keep, add_members, remove_members, put_all, discard_all, sadd, srem,
  smembers, sismember, fold_keys, after, sinter, sunion, sdiff,
}

has-put : (k x : Bytes) (st : List Bytes) → has (put k st) x ≡ (eqb k x || has st x)
unfolding put has
has-put k x st = elim (Bool-cases (has st k)) [
  | inl e ↦ rw e (ground (arith, eqb_iff k x, e))
  | inr e ↦ rw e
]

has-discard : (k x : Bytes) (st : List Bytes) → has (discard k st) x ≡ (not (eqb k x) && has st x)
unfolding discard has
has-discard k x [] = ground arith
has-discard k x (y ∷ st) = ground (arith, eqb_iff y k, eqb_iff k x, eqb_iff y x, has-discard k x st)

has-keep :
    (other : List Bytes) (x : Bytes) (st : List Bytes)
    → has (keep (has other) st) x ≡ (has st x && has other x)
unfolding keep has
has-keep other x [] = refl
has-keep other x (y ∷ st) = ground (arith, eqb_iff y x, has-keep other x st)

has-add_members :
    (members : List Bytes) (x : Bytes) (st : List Bytes)
    → has (add_members members st).1 x ≡ (has members x || has st x)
unfolding add_members has
has-add_members [] x st = refl
has-add_members (k ∷ members) x st =
    has-add_members members x (put k st) ∙ rw (has-put k x st) (ground arith)

has-remove_members :
    (members : List Bytes) (x : Bytes) (st : List Bytes)
    → has (remove_members members st).1 x ≡ (not (has members x) && has st x)
unfolding remove_members has
has-remove_members [] x st = refl
has-remove_members (k ∷ members) x st =
    has-remove_members members x (discard k st) ∙ rw (has-discard k x st) (ground arith)

has-put_all :
    (members : List Bytes) (x : Bytes) (st : List Bytes)
    → has (put_all members st) x ≡ (has members x || has st x)
unfolding put_all has
has-put_all [] x st = refl
has-put_all (k ∷ members) x st =
    has-put k x (put_all members st) ∙ rw (has-put_all members x st) (ground arith)

has-discard_all :
    (members : List Bytes) (x : Bytes) (st : List Bytes)
    → has (discard_all members st) x ≡ (not (has members x) && has st x)
unfolding discard_all has
has-discard_all [] x st = refl
has-discard_all (k ∷ members) x st =
    has-discard k x (discard_all members st) ∙ rw (has-discard_all members x st) (ground arith)

-- The sets that keys show, in order.
abbrev pub Shows : KvStore → List (Bytes × ℤ) → List (List Bytes) → Type 0
Shows kv [] [] = Unit
Shows kv [] (s ∷ sets) = ⊥
Shows kv (k ∷ keys) [] = ⊥
Shows kv (k ∷ keys) (s ∷ sets) = (contents set_kind kv k.0 k.1 ≡ some s) × Shows kv keys sets

abbrev pub every : List (List Bytes) → Bytes → Bool
every [] x = true
every (s ∷ sets) x = has s x && every sets x

abbrev pub any : List (List Bytes) → Bytes → Bool
any [] x = false
any (s ∷ sets) x = has s x || any sets x

abbrev folded : (List Bytes → List Bytes → List Bytes) → List (List Bytes) → List Bytes → List Bytes
folded op [] acc = acc
folded op (s ∷ sets) acc = folded op sets (op acc s)

smembers-contents :
    (kv : KvStore) (key : Bytes) (now : ℤ) (st : List Bytes)
    → contents set_kind kv key now ≡ some st
    → smembers kv key now ≡ done st
unfolding smembers set_kind
smembers-contents kv key now st c =
    inspect-contents set_kind kv key now (done []) (λ (st : List Bytes). done st) st c refl

module _ (op : List Bytes → List Bytes → List Bytes) (kv : KvStore) where
  fold_keys-folded :
      (keys : List (Bytes × ℤ)) (sets : List (List Bytes)) (acc : List Bytes)
      → Shows kv keys sets
      → fold_keys op kv keys acc ≡ done (folded op sets acc)
  unfolding fold_keys
  fold_keys-folded [] [] acc h = refl
  fold_keys-folded [] (s ∷ sets) acc h = elim h [ ]
  fold_keys-folded (k ∷ keys) [] acc h = elim h [ ]
  fold_keys-folded ((key, now) ∷ keys) (s ∷ sets) acc h =
      rw (smembers-contents kv key now s h.0, after) (fold_keys-folded keys sets (op acc s) h.1)

has-inter :
    (sets : List (List Bytes)) (acc : List Bytes) (x : Bytes)
    → has (folded (λ a s. keep (has s) a) sets acc) x ≡ (has acc x && every sets x)
has-inter [] acc x = ground arith
has-inter (s ∷ sets) acc x =
    has-inter sets (keep (has s) acc) x ∙ rw (has-keep s x acc) (ground arith)

has-union :
    (sets : List (List Bytes)) (acc : List Bytes) (x : Bytes)
    → has (folded (λ a s. put_all s a) sets acc) x ≡ (has acc x || any sets x)
has-union [] acc x = ground arith
has-union (s ∷ sets) acc x =
    has-union sets (put_all s acc) x ∙ rw (has-put_all s x acc) (ground arith)

has-diff :
    (sets : List (List Bytes)) (acc : List Bytes) (x : Bytes)
    → has (folded (λ a s. discard_all s a) sets acc) x ≡ (has acc x && not (any sets x))
has-diff [] acc x = ground arith
has-diff (s ∷ sets) acc x =
    has-diff sets (discard_all s acc) x ∙ rw (has-discard_all s x acc) (ground arith)

folded-nil :
    (op : List Bytes → List Bytes → List Bytes) (sets : List (List Bytes))
    → ((s : List Bytes) → op [] s ≡ [])
    → folded op sets [] ≡ []
folded-nil op [] h = refl
folded-nil op (s ∷ sets) h = rw (h s) (folded-nil op sets h)

discard_all-nil : (s : List Bytes) → discard_all s [] ≡ []
unfolding discard_all discard
discard_all-nil [] = refl
discard_all-nil (k ∷ s) = rw (discard_all-nil s)

module _ (kv : KvStore) (keys : List (Bytes × ℤ)) (sets : List (List Bytes))
    (shown : Shows kv keys sets) where
  -- For keys that hold sets or are absent, SUNION answers the members of any of them.
  has-sunion : (x : Bytes) → (r : List Bytes) × (sunion kv keys ≡ done r) × (has r x ≡ any sets x)
  unfolding sunion
  has-sunion x = (
    folded (λ a s. put_all s a) sets [],
    fold_keys-folded (λ a s. put_all s a) kv keys sets [] shown,
    has-union sets [] x ∙ (unfold has in refl),
  )

  module _ (key : Bytes) (now : ℤ) (first : List Bytes)
      (there : contents set_kind kv key now ≡ some first) where
    -- For keys that hold sets or are absent, SINTER answers the members of all the sets, and
    -- SDIFF those of the first that no other has.
    has-sinter :
        (x : Bytes)
        → (r : List Bytes) × (d : List Bytes) × (sinter kv ((key, now) ∷ keys) ≡ done r)
          × (has r x ≡ (has first x && every sets x))
          × (sdiff kv ((key, now) ∷ keys) ≡ done d)
          × (has d x ≡ (has first x && not (any sets x)))
    unfolding sinter sdiff set_kind
    has-sinter x =
        let inter : List Bytes → List Bytes → List Bytes = λ a s. keep (has s) a in
        let diff : List Bytes → List Bytes → List Bytes = λ a s. discard_all s a in
        (
          folded inter sets first,
          folded diff sets first,
          inspect-contents set_kind kv key now (done []) (fold_keys inter kv keys) first there (
                sym (
                  fold_keys-folded inter kv keys sets [] shown
                  ∙ ap done (folded-nil inter sets (λ s. unfold keep in refl))))
              ∙ fold_keys-folded inter kv keys sets first shown,
          has-inter sets first x,
          inspect-contents set_kind kv key now (done []) (fold_keys diff kv keys) first there (
                sym (
                  fold_keys-folded diff kv keys sets [] shown
                  ∙ ap done (folded-nil diff sets discard_all-nil)))
              ∙ fold_keys-folded diff kv keys sets first shown,
          has-diff sets first x,
        )

module _ (kv : KvStore) (h : IsSharded kv) (key : Bytes) (now : ℤ) (st : List Bytes)
    (there : contents set_kind kv key now ≡ some st) (members : List Bytes) (x : Bytes) where
  sismember-contents :
      (kv' : KvStore) (st' : List Bytes)
      → contents set_kind kv' key now ≡ some st'
      → sismember kv' key x now ≡ done (has st' x)
  unfolding sismember set_kind has
  sismember-contents kv' st' c =
      inspect-contents set_kind kv' key now (done false) (λ (st : List Bytes). done (has st x)) st'
        c refl

  -- On a set or an absent key, after SADD the members given are in the set, after SREM they
  -- are not; the others are as before.
  pub sismember-sadd :
      (sismember (sadd kv key members now).1 key x now ≡ done (has members x || has st x))
      × (sismember (srem kv key members now).1 key x now ≡ done (not (has members x) && has st x))
  unfolding sadd srem
  sismember-sadd =
      let added =
        modify-here set_kind kv h key now
          (λ (st : List Bytes). (done (add_members members st).0, (add_members members st).1)) st
          there in
      let removed =
        modify-here set_kind kv h key now
          (λ (st : List Bytes). (done (remove_members members st).0, (remove_members members st).1))
          st there in
      (
        sismember-contents _ _ (added.1) ∙ ap done (has-add_members members x st),
        sismember-contents _ _ (removed.1) ∙ ap done (has-remove_members members x st),
      )
