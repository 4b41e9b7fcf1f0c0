-- ===== src/Stream.antt =====
-- crates/llm/src/streaming.rs: the splitter that takes a model's reasoning out of its streamed text.
pub mod Tags
pub mod Scan
pub mod Chunks
pub mod Sse
use sica_rust.Prelude.{
  ℕ, zero, suc, Bool, true, false, Option, none, some, List, [], ◌∷◌, ◌++◌, any, length,
  if◌then◌else◌,
}
use sica_rust.Prelude.Str.{Str, str, is_empty}
use sica_rust.Prelude.Search.{split_once, ends_with_str, rsplit}

-- `ThinkSplitter`: whether a `<think>` is open, and a prefix of a tag that the last chunk ended in.
pub record ThinkSplitter : Type 0 where
  pub in_think : Bool
  pub buf : Str

-- What a delta comes to: its content, its reasoning, and the splitter after it.
pub record Fed : Type 0 where
  pub content : Str
  pub reasoning : Str
  pub splitter : ThinkSplitter

abbrev pub think_open : Str
think_open = str "<think>"

abbrev pub think_close : Str
think_close = str "</think>"

-- The tag that the loop looks for.
abbrev pub tag : Bool → Str
tag false = think_open
tag true = think_close

-- The ends of a delta that may be the start of that tag.
abbrev pub tag_starts : Bool → List Str
tag_starts false = str "<" ∷ str "<t" ∷ str "<th" ∷ str "<thi" ∷ str "<thin" ∷ str "<think" ∷ []
tag_starts true =
    str "<" ∷ str "</" ∷ str "</t" ∷ str "</th" ∷ str "</thi" ∷ str "</thin" ∷ str "</think" ∷ []

-- `push_str` onto the output of the mode, ahead of what the rest of the loop pushes.
abbrev pub push_out : Bool → Str → Fed → Fed
push_out false s f = record {
  content = s ++ f.content;
  reasoning = f.reasoning;
  splitter = f.splitter;
}
push_out true s f = record {
  content = f.content;
  reasoning = s ++ f.reasoning;
  splitter = f.splitter;
}

-- Nothing more to push; the splitter keeps `buf`.
abbrev pub stop : Bool → Str → Fed
stop in_think buf = record {
  content = [];
  reasoning = [];
  splitter = record { in_think = in_think; buf = buf };
}

-- `rest.rfind('<').unwrap_or(rest.len())`, and the slices before it and from it.
abbrev pub hold : Bool → Str → Option (Str × Str) → Fed
hold t rest none = push_out t rest (stop t [])
hold t rest (some (front, held)) = push_out t front (stop t held)

abbrev pub flip : Bool → Bool
flip true = false
flip false = true

abbrev pub without_tag : Bool → Str → Fed
without_tag t rest =
    if any (λ start. ends_with_str start rest) (tag_starts t)
    then hold t rest (rsplit b'<' rest)
    else push_out t rest (stop t [])

abbrev pub turn : Bool → Str → Option (Str × Str) → (Str → Fed) → Fed
turn t rest none next = without_tag t rest
turn t rest (some (front, after)) next = push_out t front (next after)

-- The `while` of `feed`, on what is left of the delta. Each turn takes at least a tag off it.
unfoldable pub feed_loop : ℕ → Bool → Str → Fed
unfolding split_once
feed_loop zero t rest = stop t []
feed_loop (suc n) t [] = stop t []
feed_loop (suc n) t (c ∷ s) = turn t (c ∷ s) (split_once (tag t) (c ∷ s)) (feed_loop n (flip t))

unfoldable pub feed : ThinkSplitter → Str → Fed
unfolding feed_loop
feed splitter raw =
    let combined : Str = if is_empty splitter.buf then raw else splitter.buf ++ raw in
    feed_loop (length combined) splitter.in_think combined
