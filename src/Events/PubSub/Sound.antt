-- ===== src/Events/PubSub/Sound.antt =====
-- When a message can be sent to all subscribers of a channel.
use dbx_database_extreme.Base.{
  ℕ, ◌≡◌, refl, sym, ap, ◌∙◌, ◌⊎◌, inl, inr, Bool, true, false, Bytes, Option, none, some, List, [],
  ◌∷◌, ◌++◌, All, length, ltb, ◌==◌, ==_iff, id_lookup, is_some, Bool-cases, if◌then◌else◌,
}
use dbx_database_extreme.Events.PubSub.{
  Subscriber, Chan, PubSub, channel_room, subs_of, send, send_all, counted_on, write_chan,
  unsubscribe, remove_sub,
}

-- A subscriber of that number is among those that were read.
abbrev pub has_sub : ℕ → List Subscriber → Bool
has_sub n [] = false
has_sub n (s ∷ subs) = if s.id == n then true else has_sub n subs

send-cases :
    (c : Chan) (message : Bytes)
    → ((send c message ≡ none) × (c.is_closed ≡ true))
      ⊎ ((sent : Bool) × (d : Chan) × (send c message ≡ some (sent, d))
          × (d.is_closed ≡ false)
          × (c.is_closed ≡ false))
unfolding send
send-cases c message = elim (Bool-cases c.is_closed) [
  | inl e ↦ inl (rw e refl, e)
  | inr e ↦ elim (Bool-cases (ltb (length c.buffer) channel_room)) [
    | inl f ↦ inr (true, record c { buffer = c.buffer ++ message ∷ [] }, rw (e, f) refl, e, e)
    | inr f ↦ inr (false, c, rw (e, f) refl, e, e)
  ]
]

send_all-none :
    (s : Subscriber) (subs : List Subscriber) (message : Bytes) (chans : ℕ → Chan)
    → send (chans s.id) message ≡ none
    → send_all (s ∷ subs) message chans ≡ none
unfolding send_all
send_all-none s subs message chans e = rw (e, send_all) refl

send_all-some :
    (s : Subscriber) (subs : List Subscriber) (message : Bytes) (chans : ℕ → Chan) (sent : Bool)
    (c : Chan)
    → send (chans s.id) message ≡ some (sent, c)
    → send_all (s ∷ subs) message chans
      ≡ counted_on sent (send_all subs message (write_chan s.id c chans))
unfolding send_all
send_all-some s subs message chans sent c e = rw (e, send_all) refl

-- Sending to another channel, or to one that stays open, closes none and opens none.
write_chan-is_closed :
    (m n : ℕ) (c : Chan) (chans : ℕ → Chan)
    → c.is_closed ≡ (chans m).is_closed
    → (write_chan m c chans n).is_closed ≡ (chans n).is_closed
unfolding write_chan
write_chan-is_closed m n c chans h = elim (Bool-cases (m == n)) [
  | inl e ↦ rw e (h ∙ ap (λ k. (chans k).is_closed) ((==_iff m n).0 e))
  | inr e ↦ rw e refl
]

-- One closed channel is enough for a panic.
send_all-closed :
    (n : ℕ) (subs : List Subscriber) (message : Bytes) (chans : ℕ → Chan)
    → has_sub n subs ≡ true
    → (chans n).is_closed ≡ true
    → send_all subs message chans ≡ none
unfolding counted_on
send_all-closed n [] message chans h closed = absurd (cc)
send_all-closed n (s ∷ subs) message chans h closed = elim (send-cases (chans s.id) message) [
  | inl (e, shut) ↦ send_all-none s subs message chans e
  | inr (sent, c, e, fine, was_open) ↦
      let kept = write_chan-is_closed s.id n c chans (fine ∙ sym was_open) in
      let later : has_sub n subs ≡ true = elim (Bool-cases (s.id == n)) [
        | inl same ↦
            let no : false ≡ true =
              sym was_open ∙ ap (λ k. (chans k).is_closed) ((==_iff s.id n).0 same) ∙ closed in
            absurd (cc)
        | inr other ↦ rw other at h
      ] in
      send_all-some s subs message chans sent c e
      ∙ ap (counted_on sent)
          (send_all-closed n subs message (write_chan s.id c chans) later (kept ∙ closed))
]

unsubscribe-is_closed :
    (p : PubSub) (n : ℕ) (sub : Subscriber)
    → id_lookup n p.subs_by_id ≡ some sub
    → ((unsubscribe p n).chans n).is_closed ≡ true
unfolding unsubscribe remove_sub write_chan
unsubscribe-is_closed p n sub known = rw (known, (==_iff n n).1 refl) refl

-- A subscriber that leaves between the two steps of a Publish on its channel makes the Publish panic, whatever the
-- other subscribers do.
pub publish-unsubscribe :
    (p : PubSub) (n : ℕ) (sub : Subscriber) (channel message : Bytes)
    → id_lookup n p.subs_by_id ≡ some sub
    → has_sub n (subs_of p channel) ≡ true
    → send_all (subs_of p channel) message (unsubscribe p n).chans ≡ none
publish-unsubscribe p n sub channel message known there =
    send_all-closed n (subs_of p channel) message (unsubscribe p n).chans there
      (unsubscribe-is_closed p n sub known)

-- No channel of the subscribers is closed.
abbrev IsOpen : (ℕ → Chan) → List Subscriber → Type 0
IsOpen chans subs = All (λ s. (chans s.id).is_closed ≡ false) subs

write_chan-IsOpen :
    (m : ℕ) (c : Chan) (chans : ℕ → Chan) (subs : List Subscriber)
    → c.is_closed ≡ (chans m).is_closed
    → IsOpen chans subs
    → IsOpen (write_chan m c chans) subs
write_chan-IsOpen m c chans [] h all = tt
write_chan-IsOpen m c chans (s ∷ subs) h (fine, all) =
    (write_chan-is_closed m s.id c chans h ∙ fine, write_chan-IsOpen m c chans subs h all)

is_some-counted_on :
    (sent : Bool) (r : Option (ℕ × (ℕ → Chan))) → is_some (counted_on sent r) ≡ is_some r
unfolding counted_on
is_some-counted_on sent none = refl
is_some-counted_on sent (some (n, chans)) = refl

-- Then the second step of Publish does not panic.
send_all-IsOpen :
    (subs : List Subscriber) (message : Bytes) (chans : ℕ → Chan)
    → IsOpen chans subs
    → is_some (send_all subs message chans) ≡ true
unfolding send_all
send_all-IsOpen [] message chans all = refl
send_all-IsOpen (s ∷ subs) message chans (fine, all) = elim (send-cases (chans s.id) message) [
  | inl (e, shut) ↦ let no : false ≡ true = sym fine ∙ shut in absurd (cc)
  | inr (sent, c, e, after, was_open) ↦
      ap is_some (send_all-some s subs message chans sent c e)
      ∙ is_some-counted_on sent (send_all subs message (write_chan s.id c chans))
      ∙ send_all-IsOpen subs message (write_chan s.id c chans)
          (write_chan-IsOpen s.id c chans subs (after ∙ sym was_open) all)
]
