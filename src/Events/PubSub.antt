-- ===== src/Events/PubSub.antt =====
-- internal/events/pubsub.go: the broker and the Go channels of its subscribers, each found by the number of its
-- subscriber. `Publish` is two steps, because it gives up its lock between them; every other method is one.
pub mod Sound
use dbx_database_extreme.Base.{
  ℕ, zero, suc, ◌+◌, ◌%◌, ◌^◌, Bool, true, false, Option, none, some, Bytes, List, [], ◌∷◌, ◌++◌,
  map, ℤ, Dict, lookup, insert, erase, id_lookup, id_insert, id_erase, length, ltb, ◌==◌,
  if◌then◌else◌,
}

pub record Subscriber : Type 0 where
  pub id : ℕ
  pub channel : Bytes

-- A Go channel: the messages that nobody has received, of which it holds `channel_room`.
pub record Chan : Type 0 where
  pub is_closed : Bool
  pub buffer : List Bytes

abbrev pub channel_room : ℕ
channel_room = 256

pub record PubSub : Type 0 where
  pub channels : Dict (List Subscriber)
  pub subs_by_id : List (ℕ × Subscriber)
  pub next_sub_id : ℕ
  pub max_channels : ℤ
  pub max_subs : ℤ
  pub chans : ℕ → Chan

unfoldable pub new_pub_sub : ℤ → ℤ → (ℕ → Chan) → PubSub
new_pub_sub max_channels max_subs chans = record {
  channels = [];
  subs_by_id = [];
  next_sub_id = 0;
  max_channels = max_channels;
  max_subs = max_subs;
  chans = chans;
}

unfoldable pub listed : Option (List Subscriber) → List Subscriber
listed none = []
listed (some subs) = subs

-- p.channels[channel]
unfoldable pub subs_of : PubSub → Bytes → List Subscriber
unfolding listed
subs_of p channel = listed (lookup channel p.channels)

unfoldable pub write_chan : ℕ → Chan → (ℕ → Chan) → ℕ → Chan
write_chan n c chans k = if n == k then c else chans k

-- The body of the loop of `Subscribe`. The number is a `uint64`.
unfoldable pub subscribe_one : PubSub → Bytes → Subscriber × PubSub
unfolding subs_of write_chan
subscribe_one p ch =
    let n = (p.next_sub_id + 1) % 2 ^ 64 in
    let sub : Subscriber = record { id = n; channel = ch } in
    (
      sub,
      record p {
        channels = insert ch (subs_of p ch ++ sub ∷ []) p.channels;
        subs_by_id = id_insert n sub p.subs_by_id;
        next_sub_id = n;
        chans = write_chan n (record { is_closed = false; buffer = [] }) p.chans;
      },
    )

unfoldable pub subscribe : PubSub → List Bytes → List Subscriber × PubSub
unfolding subscribe_one
subscribe p [] = ([], p)
subscribe p (ch ∷ channels) =
    let (sub, p') = subscribe_one p ch in
    let (subs, p'') = subscribe p' channels in (sub ∷ subs, p'')

-- `filtered`
unfoldable pub without_sub : ℕ → List Subscriber → List Subscriber
without_sub n [] = []
without_sub n (s ∷ subs) = let rest = without_sub n subs in if s.id == n then rest else s ∷ rest

-- A channel without subscribers is deleted.
unfoldable pub relist : Bytes → List Subscriber → Dict (List Subscriber) → Dict (List Subscriber)
relist channel [] channels = erase channel channels
relist channel (s ∷ subs) channels = insert channel (s ∷ subs) channels

unfoldable pub remove_sub : PubSub → ℕ → Option Subscriber → PubSub
unfolding without_sub relist subs_of write_chan
remove_sub p n none = p
remove_sub p n (some sub) = record p {
  channels = relist sub.channel (without_sub n (subs_of p sub.channel)) p.channels;
  subs_by_id = id_erase n p.subs_by_id;
  chans = write_chan n (record { is_closed = true; buffer = (p.chans n).buffer }) p.chans;
}

unfoldable pub unsubscribe : PubSub → ℕ → PubSub
unfolding remove_sub
unsubscribe p n = remove_sub p n (id_lookup n p.subs_by_id)

-- A `select` with a default: none is a panic, true that the message was taken.
unfoldable pub send : Chan → Bytes → Option (Bool × Chan)
send c message =
    if c.is_closed
    then none
    else if ltb (length c.buffer) channel_room
    then some (true, record c { buffer = c.buffer ++ message ∷ [] })
    else some (false, c)

unfoldable pub counted_on : Bool → Option (ℕ × (ℕ → Chan)) → Option (ℕ × (ℕ → Chan))
counted_on sent none = none
counted_on sent (some (n, chans)) = some (if sent then suc n else n, chans)

-- The second step of `Publish`, for the subscribers that the first has read.
unfoldable pub send_all : List Subscriber → Bytes → (ℕ → Chan) → Option (ℕ × (ℕ → Chan))
unfolding send counted_on write_chan
send_all [] message chans = some (0, chans)
send_all (s ∷ subs) message chans = elim (send (chans s.id) message) [
  | none ↦ none
  | some (sent, c) ↦ counted_on sent (send_all subs message (write_chan s.id c chans))
]

-- Publish, when nothing comes between its steps.
unfoldable pub publish : PubSub → Bytes → Bytes → Option (ℕ × (ℕ → Chan))
unfolding send_all subs_of
publish p channel message = send_all (subs_of p channel) message p.chans

unfoldable pub channel_count : PubSub → ℕ
channel_count p = length p.channels

unfoldable pub subscriber_count : PubSub → Bytes → ℕ
unfolding subs_of
subscriber_count p channel = length (subs_of p channel)

unfoldable pub active_channels : PubSub → List Bytes
active_channels p = map (λ c. c.0) p.channels
