-- ===== src/Security/Acl/Untouched.antt =====
-- What a user can reach with the commands that the enforcer lets through.
use dbx_database_extreme.Base.{
  ℕ, ◌≡◌, refl, sym, subst, ◌∙◌, ◌<◌, ◌^◌, ◌≢◌, Bool, true, false, ◌&&◌, not, Bytes, Option, none,
  some, List, [], ◌∷◌, All, inl, inr, eqb, eqb_sound, ℤ, pos, Bool-cases,
}
use dbx_database_extreme.Engine.Kv.Expiry.{contains}
use dbx_database_extreme.Engine.Kv.Shards.{IsSharded}
use dbx_database_extreme.Persistence.Wal.Encode.{WalEffect}
use dbx_database_extreme.Query.Command.{Command, normalized, affected_keys}
use dbx_database_extreme.Query.Verb.{verb_of}
use dbx_database_extreme.Query.Effects.{prepare_verb}
use dbx_database_extreme.Query.Executor.{Executor, Log, Outcome}
use dbx_database_extreme.Query.Dispatch.{dispatch}
use dbx_database_extreme.Query.Crash.View.{Content, IsClean, last_view, view}
use dbx_database_extreme.Query.Crash.Commands.{IsSafe, effects_of}
use dbx_database_extreme.Query.Crash.Refined.{dispatch_verb-IsStep}
use dbx_database_extreme.Security.Acl.{User, can_execute, can_access_key}
use dbx_database_extreme.Security.Acl.Enforcer.{enforce, enforce_keys}
use dbx_database_extreme.Security.Acl.Prepared.{IsAmong, prepare-affected_keys}

enforce_keys-access :
    (user : User) (ks : List Bytes) (j : Bytes)
    → enforce_keys user ks ≡ none
    → contains ks j ≡ true
    → j ≢ []
    → can_access_key user j ≡ true
unfolding enforce_keys
enforce_keys-access user [] j p h n = absurd (cc)
enforce_keys-access user (k ∷ ks) j p h n = elim (Bool-cases (eqb k j)) [
  | inl e ↦
      let same : k ≡ j = eqb_sound k j e in
      elim (Bool-cases (can_access_key user k)) [
        | inl f ↦ subst (λ x. can_access_key user x ≡ true) same f
        | inr f ↦ elim (Bool-cases (eqb k [])) [
          | inl g ↦ absurd (n (sym same ∙ eqb_sound k [] g))
          | inr g ↦ absurd (let q = rw (g, f) at p in cc)
        ]
      ]
  | inr e ↦ elim (Bool-cases (not (eqb k []) && not (can_access_key user k))) [
    | inl g ↦ absurd (let q = rw g at p in cc)
    | inr g ↦ enforce_keys-access user ks j (rw g at p) (rw e at h) n
  ]
]

pub enforce-keys :
    (user : User) (cmd : Command)
    → enforce (some user) cmd ≡ none
    → enforce_keys user (affected_keys cmd) ≡ none
unfolding enforce
enforce-keys user cmd h = elim (Bool-cases (can_execute user (normalized cmd))) [
  | inl e ↦ rw e at h
  | inr e ↦ absurd (let k = rw e at h in cc)
]

last_view_elsewhere :
    (es : List WalEffect) (j : Bytes) (l : ℕ) (before : Option Content)
    → All (λ (e : WalEffect). eqb e.key j ≡ false) es
    → last_view es j l before ≡ before
last_view_elsewhere [] j l before h = refl
last_view_elsewhere (e ∷ es) j l before h = rw h.0 (last_view_elsewhere es j l before h.1)

pub elsewhere :
    (user : User) (ks : List Bytes) (es : List WalEffect) (j : Bytes)
    → enforce_keys user ks ≡ none
    → can_access_key user j ≡ false
    → j ≢ []
    → All (IsAmong ks) es
    → All (λ (e : WalEffect). eqb e.key j ≡ false) es
elsewhere user ks [] j p d n h = tt
elsewhere user ks (e ∷ es) j p d n h = (
  elim (Bool-cases (eqb e.key j)) [
    | inl f ↦
        let same : e.key ≡ j = eqb_sound e.key j f in
        elim h.0 [
          | inl empty ↦ absurd (n (sym same ∙ empty))
          | inr named ↦
              let there : contains ks j ≡ true = subst (λ x. contains ks x ≡ true) same named in
              let yes = enforce_keys-access user ks j p there n in absurd (cc)
        ]
    | inr f ↦ f
  ],
  elsewhere user ks es j p d n h.1,
)

-- A command on keys and strings that the enforcer lets a user run leaves every key that the user may not name
-- (the empty one apart) as later readers see it: on a store of strings with deadlines in range, at one time
-- in the range of `int64`, for a command that the log can make good.
pub dispatch_untouched :
    (accepts : Log → List WalEffect → Bool) (other : Executor → Command → (ℕ → ℤ) → Outcome)
    (e : Executor) (cmd : Command) (n : ℕ) (user : User) (j : Bytes) (l : ℕ)
    → IsClean e.kv
    → IsSharded e.kv
    → n < 2 ^ 63
    → IsSafe (verb_of cmd) e.kv cmd n
    → enforce (some user) cmd ≡ none
    → can_access_key user j ≡ false
    → j ≢ []
    → n < l
    → view (dispatch accepts other e cmd (λ i. pos n)).1.kv j l ≡ view e.kv j l
unfolding dispatch
dispatch_untouched accepts other e cmd n user j l c h m s p d ne later =
    let step = dispatch_verb-IsStep accepts other e cmd n c h (verb_of cmd) m s in
    let es = effects_of (prepare_verb (verb_of cmd) e.kv cmd (λ i. pos n)) in
    step.follows j l later
    ∙ last_view_elsewhere es j l (view e.kv j l) (
        elsewhere user (affected_keys cmd) es j (enforce-keys user cmd p) d ne
          (prepare-affected_keys e.kv cmd (λ i. pos n)))
