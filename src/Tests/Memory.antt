-- ===== src/Tests/Memory.antt =====
-- What is remembered over a run, at concrete states.
use greynet.Base.{codes, ◌≡◌, refl, true, [], ◌∷◌, nat_eq, str_eq, contains}
use greynet.Base.Dict.{lookup, insert}
use greynet.Json.{get_obj, get_str, push_back, member_of}
use greynet.Messages.{Message, ping, pong_message}
use greynet.Platform.{State, Call, ok}
use greynet.Handshake.{
  expect_ident, find_str, read_object, ident_object, jabber_new_peer, advertise,
}
use greynet.Handshake.Ident.{Accepted}
use greynet.Dispatch.{message_received, is_stream, handle_message, handle_ping}
use greynet.Runs.{message, peer, Reach, here, next}
use greynet.Runs.Grows.{Grows}
use greynet.Runs.Memory.{Reach-Grows, Reach-message_received_twice}
use greynet.Runs.Cookies.{Reach-expect_ident}
use greynet.Tests.Libraries.{libraries, read_text}
use greynet.Tests.Streams.{idle}
use greynet.Tests.Peers.{from_bob, bob}

abbrev a_ping : Message
a_ping = libraries.general_message ping [] (codes "guid")

-- After a PING from connection 3, and after bob was sent an advertisement with the cookie `uuid`.
abbrev pinged : State
pinged = record idle {
  seen_guids = codes "guid" ∷ [];
  log = Call.async_write 3 (pong_message (codes "uuid")) ∷ Call.gen_uuid ∷ [];
}

abbrev invited : State
invited = record pinged {
  peer_cookies = (codes "uuid", codes "bob") ∷ [];
  log = Call.send_to (codes "bob") (codes "advert") ∷ Call.gen_uuid ∷ pinged.log;
}

ping_handled : message_received libraries a_ping 3 idle ≡ ok pinged
unfolding message_received is_stream contains handle_message handle_ping nat_eq str_eq
ping_handled = refl

bob_invited : jabber_new_peer libraries (codes "bob") pinged ≡ ok invited
unfolding jabber_new_peer advertise insert str_eq
bob_invited = refl

invitation : Reach libraries pinged invited
invitation = next here (peer (codes "bob") bob_invited)

Reach-Grows_example : Grows idle invited
Reach-Grows_example =
    Reach-Grows libraries idle invited
      (next (next here (message a_ping 3 ping_handled)) (peer (codes "bob") bob_invited))

Reach-message_received_twice_example : message_received libraries a_ping 4 invited ≡ ok invited
unfolding is_stream nat_eq
Reach-message_received_twice_example =
    Reach-message_received_twice libraries a_ping 3 4 idle pinged invited refl ping_handled
      invitation

-- The PING again, between the invitation and bob's IDENT.
again : message_received libraries a_ping 4 invited ≡ ok invited
unfolding message_received is_stream contains nat_eq str_eq
again = refl

Reach-expect_ident_example :
    (u : State) × (expect_ident libraries from_bob 1 true invited ≡ ok u)
    × Accepted libraries 1 true (codes "bob") invited u
unfolding read_object find_str get_obj get_str lookup read_text member_of push_back ident_object
    nat_eq str_eq
Reach-expect_ident_example =
    Reach-expect_ident libraries from_bob 1 invited invited bob (codes "uuid") (codes "bob")
      (codes "bob") (codes "me") refl (λ e. cc) refl (next here (message a_ping 4 again)) refl refl
      refl refl refl
