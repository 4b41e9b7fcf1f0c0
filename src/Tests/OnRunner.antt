-- ===== src/Tests/OnRunner.antt =====
-- A model that calls a tool once and then answers.
use sica_rust.Prelude.{
  true, false, Option, none, some, List, [], ◌∷◌, ◌≡◌, ◌==◌, refl, any, length, if◌then◌else◌,
}
use sica_rust.Prelude.Str.{Str, str, str_eq}
use sica_rust.Budget.Chat.{ChatMessage}
use sica_rust.Call.Line.{line_call}
use sica_rust.Runner.Texts.{call_id}
use sica_rust.Runner.{Report, World, RunSpec, problem, chat, run_conversation}
use sica_rust.Runner.Reports.{SoundReport, run_conversation-returns, verified-calls}

abbrev calls_once : World Str
calls_once = record {
  llm = λ transcript. some (if length transcript == 1 then str "call" else str "the answer");
  extract =
      λ reply. if str_eq reply (str "call") then some (line_call (str "glob") [] []) else none;
  rejected = λ _. none;
  run_tool = λ _ _. some (record { ok = true; summary = str "two files" });
  parse_structured = λ _. problem (str "no schema");
}

abbrev short_run : RunSpec
short_run = record { max_hops = 2; wants_schema = false; call_seq_start = 0 }

abbrev task : List ChatMessage
task = chat (str "user") (str "look") ∷ []

run_conversation-returns_example :
    (report : Option (Report Str)) × (run_conversation calls_once short_run task ≡ some report)
    × SoundReport calls_once short_run report
run_conversation-returns_example = run_conversation-returns calls_once short_run task

abbrev one_call : Report Str
one_call = record {
  text = str "the answer";
  structured = none;
  tool_ok = 1;
  tool_err = 0;
  hops = 1;
  calls = record { id = call_id 1; skill = str "glob"; ok = true } ∷ [];
}

verified-calls_example : any (λ c. c.ok) one_call.calls ≡ true
unfolding run_conversation str_eq
verified-calls_example = verified-calls calls_once short_run task one_call refl refl
