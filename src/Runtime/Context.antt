-- ===== src/Runtime/Context.antt =====
-- runtime/context.py: `LocalFirstContextResolver`.
pub mod Planning
use multi_agent_langgraph.Base.{
  ℕ, ◌+◌, String, Bool, true, false, Option, none, some, List, [], ◌∷◌, ◌++◌, ◌&&◌, ◌<>◌, ◌==◌,
  string_key, if◌then◌else◌, any, decimal, value_error, Result, ok, raise,
}
use multi_agent_langgraph.Runtime.Models.{
  ContextSource, jira, repository, run_state, internal_knowledge, first_party, external_research,
  ContextRequest, ResolvedContextEntry, ResolvedContextBundle,
}
use multi_agent_langgraph.Runtime.Models.Value.{source_value}

abbrev pub resolution_order : List ContextSource
resolution_order =
    jira ∷ repository ∷ run_state ∷ internal_knowledge ∷ first_party ∷ external_research ∷ []

-- The inner loop, `enumerate(…, start=1)` from `index`.
source_entries : ContextSource → ℕ → List String → List ResolvedContextEntry
source_entries source index [] = []
source_entries source index (content ∷ contents) =
    record {
      source = source;
      content = content;
      provenance = source_value source <> ":" <> decimal index;
    }
    ∷ source_entries source (index + 1) contents

abbrev texts_of : Option (List String) → List String
texts_of none = []
texts_of (some texts) = texts

collect_entries : ContextRequest → List ContextSource → List ResolvedContextEntry
unfolding source_entries
collect_entries request [] = []
collect_entries request (source ∷ sources) =
    source_entries source 1 (texts_of (request.available_context source))
    ++ collect_entries request sources

abbrev is_external : ContextSource → Bool
is_external external_research = true
is_external _ = false

abbrev is_blank : Option String → Bool
is_blank none = true
is_blank (some text) = text == ""

unfoldable pub resolve : ContextRequest → Result ResolvedContextBundle
unfolding collect_entries
resolve request =
    let entries = collect_entries request resolution_order in
    if any (λ entry. is_external entry.source) entries && is_blank request.external_research_reason
    then raise (
        value_error
          "External research requires an insufficiency reason from earlier context stages.")
    else ok
        (record { entries = entries; external_research_reason = request.external_research_reason })
