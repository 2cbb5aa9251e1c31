-- ===== src/Dispatch/Streams.antt =====
-- message_received (src/greynet.cpp) on the messages of a stream.
use greynet.Base.{◌≡◌, nat_eq}
use greynet.Messages.{Message, siddata, sidheaders, sidfail}
use greynet.Platform.{Env, State, Conn}
use greynet.Transfers.{handle_siddata, handle_sidheaders, handle_sidfail}
use greynet.Dispatch.{message_received, handle_message}

module _ (env : Env) (msg : Message) (conn : Conn) (s : State) where
  pub message_received-siddata :
      env.msg_type msg ≡ siddata → message_received env msg conn s ≡ handle_siddata env msg s
  unfolding message_received handle_message
  message_received-siddata h = rw h

  pub message_received-sidheaders :
      env.msg_type msg ≡ sidheaders → message_received env msg conn s ≡ handle_sidheaders env msg s
  unfolding message_received handle_message
  message_received-sidheaders h = rw h

  pub message_received-sidfail :
      env.msg_type msg ≡ sidfail → message_received env msg conn s ≡ handle_sidfail env msg s
  unfolding message_received handle_message
  message_received-sidfail h = rw h
