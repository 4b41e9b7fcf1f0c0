-- ===== src/Message.antt =====
-- crates/sica-core/src/message.rs: the messages of a conversation.
use sica_rust.Prelude.{Option, none, List, []}
use sica_rust.Prelude.Str.{Str}
use sica_rust.Protocol.{UserImage}

pub data Role : Type 0 where
  system user assistant tool : Role

pub record Message : Type 0 where
  pub role : Role
  pub content : Str
  pub reasoning : Option Str
  pub images : List UserImage
  pub tool_calls : Option Str
  pub tool_call_id : Option Str

abbrev pub base : Role → Str → Message
base role text = record {
  role = role;
  content = text;
  reasoning = none;
  images = [];
  tool_calls = none;
  tool_call_id = none;
}

abbrev pub user_message : Str → Message
user_message text = base user text

abbrev pub user_with_images : Str → List UserImage → Message
user_with_images text images = let m = base user text in record m { images = images }

abbrev pub assistant_message : Str → Message
assistant_message text = base assistant text

abbrev pub system_message : Str → Message
system_message text = base system text
