-- ===== src/Budget/Chat.antt =====
-- crates/llm/src/client.rs: the messages of a request.
use sica_rust.Prelude.{Option, List, [], ◌∷◌, ◌++◌}
use sica_rust.Prelude.Str.{Str}

pub data ContentPart : Type 0 where
  text : Str → ContentPart
  image_url : (url : Str) → ContentPart

pub data ChatContent : Type 0 where
  text : Str → ChatContent
  parts : List ContentPart → ChatContent

abbrev texts : List ContentPart → List Str
texts [] = []
texts (text t ∷ ps) = t ∷ texts ps
texts (image_url _ ∷ ps) = texts ps

-- `join(" ")`.
abbrev join_space : List Str → Str
join_space [] = []
join_space (t ∷ []) = t
join_space (t ∷ u ∷ ts) = t ++ (32 ∷ join_space (u ∷ ts))

-- `ChatContent::text`: images contribute nothing.
unfoldable pub text_of : ChatContent → Str
text_of (text t) = t
text_of (parts ps) = join_space (texts ps)

pub record ChatMessage : Type 0 where
  pub role : Str
  pub content : ChatContent
  pub tool_calls : Option Str
  pub tool_call_id : Option Str
