-- ===== src/Runner/Texts.antt =====
-- crates/agents/src/runner.rs: what the loop of a delegated conversation tells the model.
use sica_rust.Prelude.{ℕ, Bool, ◌++◌, if◌then◌else◌}
use sica_rust.Prelude.Str.{Str, str}
use sica_rust.Prelude.Decimal.{decimal}

unfoldable pub syntax_correction : Str → Str
syntax_correction reason =
    str "That was not a valid tool call, so NOTHING ran and you received no output. The p"
    ++ str "arser found "
    ++ reason
    ++ str ".\n\nTo call a tool, reply with exactly one call and nothing else: either one li"
    ++ str "ne,\n\n    <skill-name> '<arg1>' '<arg2>' > <what you want to learn>\n\nor, when"
    ++ str " an argument is long or full of quotes (a script, a file body), one JSON object "
    ++ str "in a fence:\n\n    ```tool_call\n    {\"skill\": \"<skill-name>\", \"args\": {\""
    ++ str "<arg-name>\": \"<value>\"}, \"expectation\": \"<what you want to learn>\"}\n    "
    ++ str "```\n\nEvery argument must be quoted and the expectation is required. Retry the "
    ++ str "call now if you still need it. If you do not, reply with your report — but do NO"
    ++ str "T describe file contents, command output, or whether a path exists unless a tool"
    ++ str " result above actually shows it; say plainly that you could not verify it instea"
    ++ str "d."

unfoldable pub structured_reminder : Str
structured_reminder =
    str "That reply does not count as your result. Report your final answer by calling th"
    ++ str "e `structured-output` tool with a single JSON argument matching the schema in it"
    ++ str "s description — nothing else is read. Call it now."

unfoldable pub structured_problem : Str → Str
structured_problem problem =
    str "Tool result for `structured-output` (error):\n"
    ++ problem
    ++ str "\n\nNothing was recorded. Call it again with a corrected JSON argument."

unfoldable pub budget_exhausted : ℕ → Bool → Str
unfolding decimal
budget_exhausted max_hops wants_schema =
    str "Tool budget ("
    ++ decimal max_hops
    ++ str ") exhausted — reply with your final "
    ++ (if wants_schema then str "`structured-output` call" else str "report")
    ++ str " now, using what you already have."

unfoldable pub call_id : ℕ → Str
unfolding decimal
call_id n = str "call-" ++ decimal n

unfoldable pub tool_message : Str → Bool → Str → Str → Str
tool_message skill ok id summary =
    str "Tool result for `"
    ++ skill
    ++ str "` ("
    ++ (if ok then str "ok" else str "error")
    ++ str ") [id: "
    ++ id
    ++ str "]:\n"
    ++ summary

unfoldable pub invalid_report : Str → Str → Str
invalid_report problem raw = str "invalid structured report: " ++ problem ++ str "\n\n" ++ raw
