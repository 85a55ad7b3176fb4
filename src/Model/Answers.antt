-- ===== src/Model/Answers.antt =====
-- integrations/model.py and workflow/graph.py: what the generators answer, and that a turn ends in a
-- decision when the provider fails.
use mathlib.Core.Path.{◌≡◌, refl, ◌∙◌, ap}
use mathlib.Core.Logic.{◌⊎◌, inl, inr}
use mathlib.Core.Bool.{true, false}
use mathlib.Core.Option.{Option, none, some}
use wootpilot.Prelude.Tests.{Bool-cases}
use wootpilot.Prelude.Text.{Text, codes}
use wootpilot.Domain.Messages.{ConversationState, NormalizedMessage}
use wootpilot.Domain.Catalog.{CatalogContext}
use wootpilot.Domain.Rules.{AgentProposal, AutomationMode, ModelProposalResult}
use wootpilot.Domain.Outbound.{Result, ok}
use wootpilot.Workflow.Graph.{WorkflowNodes, graph_input, run_graph}
use wootpilot.Workflow.Totality.{Decides, run_graph-Decides}
use wootpilot.Model.Prompt.{CustomerLocale}
use wootpilot.Model.Fake.{fake_propose}
use wootpilot.Model.Generators.{
  Invocation, Method, ModelProvider, ModelProviderError, OpenRouter, Structured, controlled,
  escaped, structured, attempt, failure_result, invoke_structured, is_provider_api_exception,
  key_missing, openrouter_propose, or_second, other, parsed, proposal_generator, propose_imported,
  provider_error, raised, result_of, transport_error, unparsed, value_error,
}

-- The result holds a proposal, an error to retry or a permanent error, and nothing else.
abbrev pub IsOneAnswer : ModelProposalResult → Type 0
IsOneAnswer r =
    ((proposal : AgentProposal) × (r
        ≡ record { proposal = some proposal; retryable_error = none; permanent_error = none }))
    ⊎ ((code : Text) × (r
          ≡ record { proposal = none; retryable_error = some code; permanent_error = none }))
    ⊎ ((code : Text) × (r
          ≡ record { proposal = none; retryable_error = none; permanent_error = some code }))

-- The invocation raises nothing, or an exception that the adapter counts to the provider.
abbrev pub IsProviders : Invocation → Type 0
IsProviders (raised (other class_name module_name)) = is_provider_api_exception module_name ≡ true
IsProviders invocation = Unit

record Answers (r : Result ModelProposalResult) : Type 0 where
  result : ModelProposalResult
  answered : r ≡ ok result
  one : IsOneAnswer result

-- The method does not let an exception escape.
abbrev IsControlled : Structured → Type 0
IsControlled (structured schema) = Unit
IsControlled (controlled e) = Unit
IsControlled (escaped class_name) = ⊥

attempt-IsControlled :
    (method : Method) (invocation : Invocation)
    → IsProviders invocation
    → IsControlled (attempt method invocation)
unfolding attempt
attempt-IsControlled method (parsed schema) h = tt
attempt-IsControlled method (unparsed text) h = tt
attempt-IsControlled method (raised (transport_error name)) h = tt
attempt-IsControlled method (raised (value_error name)) h = tt
attempt-IsControlled method (raised (provider_error e)) h = tt
attempt-IsControlled method (raised (other name module_name)) h = rw h tt

or_second-IsControlled :
    (first second : Structured)
    → IsControlled first
    → IsControlled second
    → IsControlled (or_second first second)
or_second-IsControlled (structured schema) second h k = tt
or_second-IsControlled (controlled e) second h k = k
or_second-IsControlled (escaped name) second h k = h

module _ (model : OpenRouter) (context : CatalogContext) where
  failed-Answers : (e : ModelProviderError) → Answers (ok (failure_result model e))
  failed-Answers e = elim (Bool-cases e.retryable) [
    | inl again ↦ rw again (record { result = _; answered = refl; one = inr (inl (e.code, refl)) })
    | inr final ↦ rw final (record { result = _; answered = refl; one = inr (inr (e.code, refl)) })
  ]

  structured-Answers : (s : Structured) → IsControlled s → Answers (result_of model context s)
  structured-Answers (structured schema) h = record {
    result = _;
    answered = refl;
    one = inl (_, refl);
  }
  structured-Answers (controlled e) h = failed-Answers e
  structured-Answers (escaped name) h = absurd h

  imported-Answers :
      (import_error : Option Text) (message : NormalizedMessage) (state : ConversationState)
      → ((method : Method) → IsProviders (model.invoke method message state context))
      → Answers (propose_imported model import_error message state context)
  unfolding invoke_structured
  imported-Answers (some name) message state h =
      failed-Answers
        (record { code = name; operation = codes "openrouter_import"; retryable = false })
  imported-Answers none message state h =
      structured-Answers (invoke_structured model message state context) (
        or_second-IsControlled
          (attempt Method.json_schema (model.invoke Method.json_schema message state context))
          (attempt Method.function_calling
            (model.invoke Method.function_calling message state context))
          (attempt-IsControlled Method.json_schema _ (h Method.json_schema))
          (attempt-IsControlled Method.function_calling _ (h Method.function_calling)))

  openrouter-Answers :
      (message : NormalizedMessage) (state : ConversationState)
      → ((method : Method) → IsProviders (model.invoke method message state context))
      → Answers (openrouter_propose model message state context)
  unfolding openrouter_propose
  openrouter-Answers message state h = elim (Bool-cases (key_missing model)) [
    | inl missing ↦ rw missing (record { result = _; answered = refl; one = inr (inr (_, refl)) })
    | inr present ↦ rw present (imported-Answers model.import_error message state h)
  ]

  generator-Answers :
      (provider : ModelProvider) (locale : CustomerLocale) (message : NormalizedMessage)
      (state : ConversationState)
      → ((method : Method) → IsProviders (model.invoke method message state context))
      → Answers (proposal_generator provider locale model message state context)
  unfolding proposal_generator fake_propose
  generator-Answers ModelProvider.fake locale message state h = record {
    result = _;
    answered = refl;
    one = inl (_, refl);
  }
  generator-Answers ModelProvider.openrouter locale message state h =
      openrouter-Answers message state h

-- A failing provider never leaves a turn undecided. With the configured generator, where neither
-- method raises an exception that the adapter does not count to the provider, the answer is exactly
-- one of a proposal, an error to retry and a permanent error, and the graph ends with a decision.
pub proposal_generator-Decides :
    (nodes : WorkflowNodes) (provider : ModelProvider) (locale : CustomerLocale)
    (model : OpenRouter) (message : NormalizedMessage) (state : ConversationState)
    (context : CatalogContext) (mode : AutomationMode)
    → nodes.propose ≡ proposal_generator provider locale model
    → ((method : Method) → IsProviders (model.invoke method message state context))
    → ((result : ModelProposalResult) × (proposal_generator provider locale model message state
            context
          ≡ ok result)
        × IsOneAnswer result)
      × Decides (run_graph nodes (graph_input message state context mode))
proposal_generator-Decides nodes provider locale model message state context mode same h =
    let a = generator-Answers model context provider locale message state h in
    (
      (a.result, a.answered, a.one),
      run_graph-Decides nodes message state context mode a.result (
          ap
            (λ (f : NormalizedMessage
                → ConversationState
                → CatalogContext
                → Result ModelProposalResult).
              f message state context)
            same
          ∙ a.answered),
    )
