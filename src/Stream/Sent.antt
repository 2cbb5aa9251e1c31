-- ===== src/Stream/Sent.antt =====
-- What a plugin writes to a connection (src/greynet_asyncadaptor.hpp, src/ss_greynet.cpp), as the
-- other end gets it.
use greynet.Base.{
  ◌≡◌, refl, sym, ◌∙◌, List, [], ◌∷◌, ◌++◌, ◌==◌, nat_eq, if◌then◌else◌, length, drop, drop-append,
  ==_refl,
}
use greynet.Messages.{Message}
use greynet.Platform.{State, Conn, Call, Log, push_all}
use greynet.Stream.{writes}
use mathlib.Core.List.{append_assoc, append-nil}

-- What a call writes to a connection.
abbrev pub sent_by : Conn → Call → List Message
sent_by c (Call.async_write d msg) = if d == c then msg ∷ [] else []
sent_by c _ = []

-- What was written to a connection, in its order.
unfoldable pub sent : Conn → Log → List Message
sent c [] = []
sent c (call ∷ log) = sent c log ++ sent_by c call

-- What a plugin has written to a connection since it was in the state `s`.
unfoldable pub since : Conn → State → State → List Message
since c s t = drop (length (sent c s.log)) (sent c t.log)

unfoldable pub sent_calls : Conn → List Call → List Message
sent_calls c [] = []
sent_calls c (call ∷ calls) = sent_by c call ++ sent_calls c calls

sent-push_all :
    (c : Conn) (calls : List Call) (log : Log)
    → sent c (push_all calls log) ≡ sent c log ++ sent_calls c calls
unfolding sent sent_calls
sent-push_all c [] log = sym (append-nil (sent c log))
sent-push_all c (call ∷ calls) log =
    sent-push_all c calls (call ∷ log) ∙ append_assoc (sent c log) (sent_by c call) _

pub since-push_all :
    (c : Conn) (calls : List Call) (s t : State)
    → t.log ≡ push_all calls s.log
    → since c s t ≡ sent_calls c calls
unfolding since
since-push_all c calls s t e =
    rw (e, sent-push_all c calls s.log) (drop-append (sent c s.log) (sent_calls c calls))

pub sent_calls-writes : (c : Conn) (msgs : List Message) → sent_calls c (writes c msgs) ≡ msgs
unfolding sent_calls nat_eq
sent_calls-writes c [] = refl
sent_calls-writes c (msg ∷ msgs) = rw (==_refl c, sent_calls-writes c msgs) refl
