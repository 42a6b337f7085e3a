-- ===== src/Query/Effects/Keyed.antt =====
-- The key of the effects that are prepared for a command on one key.
use dbx_database_extreme.Base.{
  ◌≡◌, refl, Bool, true, false, Bytes, Option, none, some, List, [], All, ℤ, pos, leb_ℤ, eqb_ℤ,
  if◌then◌else◌,
}
use dbx_database_extreme.Util.Decimal.{parse_int}
use dbx_database_extreme.Engine.Entry.{Entry}
use dbx_database_extreme.Engine.Typed.{Answer, done, failed, panicked}
use dbx_database_extreme.Engine.Strings.SetArgs.{SetArgs}
use dbx_database_extreme.Persistence.Wal.Encode.{WalEffect}
use dbx_database_extreme.Query.Effects.{
  StringState, absent, foreign, holding, put, expiry, set_effect, parsed_set_effect, setex_effect,
  setnx_effect, getset_effect, expire_effect, persist_effect, sum_effect, incr_effect,
  append_effect,
}

-- All effects are on the one key.
abbrev pub IsOn : Bytes → List WalEffect → Type 0
IsOn key es = All (λ (e : WalEffect). e.key ≡ key) es

pub if-All :
    (P : WalEffect → Type 0) (b : Bool) (es fs : List WalEffect)
    → All P es
    → All P fs
    → All P (if b then es else fs)
if-All P true es fs h k = h
if-All P false es fs h k = k

pub set_effect-IsOn :
    (key : Bytes) (s : StringState) (a : SetArgs) (now : ℤ) → IsOn key (set_effect key s a now)
unfolding set_effect put
set_effect-IsOn key foreign a now = tt
set_effect-IsOn key absent a now = if-All (λ (e : WalEffect). e.key ≡ key) a.xx [] _ tt (refl, tt)
set_effect-IsOn key (holding b d) a now =
    if-All (λ (e : WalEffect). e.key ≡ key) a.nx [] _ tt (refl, tt)

pub parsed_set_effect-IsOn :
    (key : Bytes) (s : StringState) (a : Answer SetArgs) (now : ℤ)
    → IsOn key (parsed_set_effect key s a now)
unfolding parsed_set_effect
parsed_set_effect-IsOn key s (done a) now = set_effect-IsOn key s a now
parsed_set_effect-IsOn key s (failed e) now = tt
parsed_set_effect-IsOn key s panicked now = tt

pub setex_effect-IsOn :
    (key value : Bytes) (o : Option ℤ) (now : ℤ) → IsOn key (setex_effect key value o now)
unfolding setex_effect put
setex_effect-IsOn key value none now = tt
setex_effect-IsOn key value (some t) now =
    if-All (λ (e : WalEffect). e.key ≡ key) (leb_ℤ t (pos 0)) [] _ tt (refl, tt)

pub setnx_effect-IsOn : (key value : Bytes) (s : StringState) → IsOn key (setnx_effect key value s)
unfolding setnx_effect put
setnx_effect-IsOn key value absent = (refl, tt)
setnx_effect-IsOn key value foreign = tt
setnx_effect-IsOn key value (holding b d) = tt

pub getset_effect-IsOn :
    (key value : Bytes) (s : StringState) → IsOn key (getset_effect key value s)
unfolding getset_effect put
getset_effect-IsOn key value absent = (refl, tt)
getset_effect-IsOn key value foreign = tt
getset_effect-IsOn key value (holding b d) = (refl, tt)

pub append_effect-IsOn :
    (key value : Bytes) (s : StringState) → IsOn key (append_effect key value s)
unfolding append_effect put
append_effect-IsOn key value absent = (refl, tt)
append_effect-IsOn key value foreign = tt
append_effect-IsOn key value (holding b d) = (refl, tt)

pub expire_effect-IsOn :
    (key : Bytes) (o : Option ℤ) (there : Bool) (now : ℤ) → IsOn key (expire_effect key o there now)
unfolding expire_effect expiry
expire_effect-IsOn key none there now = tt
expire_effect-IsOn key (some t) there now =
    if-All (λ (e : WalEffect). e.key ≡ key) there _ [] (refl, tt) tt

pub persist_effect-IsOn : (key : Bytes) (o : Option Entry) → IsOn key (persist_effect key o)
unfolding persist_effect expiry
persist_effect-IsOn key none = tt
persist_effect-IsOn key (some e) =
    if-All (λ (f : WalEffect). f.key ≡ key) (eqb_ℤ e.expires_at (pos 0)) [] _ tt (refl, tt)

sum_effect-IsOn :
    (key : Bytes) (current by : Option ℤ) (d : ℤ) → IsOn key (sum_effect key current by d)
unfolding sum_effect put
sum_effect-IsOn key none by d = tt
sum_effect-IsOn key (some current) none d = tt
sum_effect-IsOn key (some current) (some by) d = (refl, tt)

pub incr_effect-IsOn :
    (key : Bytes) (s : StringState) (by : Option ℤ) → IsOn key (incr_effect key s by)
unfolding incr_effect
incr_effect-IsOn key absent by = sum_effect-IsOn key (some (pos 0)) by (pos 0)
incr_effect-IsOn key foreign by = tt
incr_effect-IsOn key (holding b d) by = sum_effect-IsOn key (parse_int b) by d
