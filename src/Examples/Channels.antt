-- ===== src/Examples/Channels.antt =====
-- A client that leaves while a message is on its way.
use dbx_database_extreme.Base.{
  ℕ, ◌≡◌, refl, true, false, Bytes, none, some, [], ◌∷◌, codes, pos, lookup, insert, eqb, id_lookup,
  id_insert,
}
use dbx_database_extreme.Events.PubSub.{
  PubSub, Chan, new_pub_sub, subscribe, subscribe_one, subs_of, listed, send_all, unsubscribe,
}
use dbx_database_extreme.Events.PubSub.Sound.{has_sub, publish-unsubscribe}

abbrev unused : ℕ → Chan
unused n = record { is_closed = false; buffer = [] }

abbrev news : Bytes
news = codes "news"

-- The subscribers are 1 and 2.
abbrev broker : PubSub
broker = (subscribe (new_pub_sub (pos 8) (pos 8) unused) (news ∷ news ∷ [])).1

second_known : id_lookup 2 broker.subs_by_id ≡ some (record { id = 2; channel = news })
unfolding subscribe subscribe_one new_pub_sub id_lookup id_insert
second_known = refl

second_listed : has_sub 2 (subs_of broker news) ≡ true
unfolding subscribe subscribe_one new_pub_sub subs_of listed lookup insert eqb
second_listed = refl

publish-unsubscribe_example :
    send_all (subs_of broker news) (codes "hello") (unsubscribe broker 2).chans ≡ none
publish-unsubscribe_example =
    publish-unsubscribe broker 2 (record { id = 2; channel = news }) news (codes "hello")
      second_known second_listed
