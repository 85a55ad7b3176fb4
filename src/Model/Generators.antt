-- ===== src/Model/Generators.antt =====
-- src/wootpilot/integrations/model.py: OpenRouterProposalGenerator and the choice of a generator. What
-- the provider does with each of the two methods is a parameter.
use mathlib.Core.Bool.{Bool, true, false, ◌||◌}
use mathlib.Core.Option.{Option, none, some}
use mathlib.Core.List.{List, []}
use wootpilot.Prelude.Tests.{if◌then◌else◌}
use wootpilot.Prelude.Text.{Text, codes, str_eq, starts_with}
use wootpilot.Domain.Messages.{ConversationState, NormalizedMessage}
use wootpilot.Domain.Catalog.{CatalogContext}
use wootpilot.Domain.Rules.{AgentActionKind, AgentProposal, ModelProposalResult}
use wootpilot.Domain.Outbound.{Result, ok, err, Failure}
use wootpilot.Model.Prompt.{CustomerLocale}
use wootpilot.Model.Fake.{fake_propose, proposed, snapshot_ids}

-- _AgentProposalSchema
pub record AgentProposalSchema : Type 0 where
  pub action_kind : AgentActionKind
  pub summary : Text
  pub public_message : Option Text
  pub private_note : Option Text
  pub risk_reasons : List Text

pub record ModelProviderError : Type 0 where
  pub code : Text
  pub operation : Text
  pub retryable : Bool

-- What an invocation raises: TimeoutError or ConnectionError, ValueError or ValidationError,
-- ModelProviderError, or another exception, by its class and its module.
pub data ProviderException : Type 0 where
  transport_error value_error : (class_name : Text) → ProviderException
  provider_error : ModelProviderError → ProviderException
  other : (class_name module_name : Text) → ProviderException

-- What one method gives: a parsed schema, no parsed output with the text of the parsing error, or
-- an exception.
pub data Invocation : Type 0 where
  parsed : AgentProposalSchema → Invocation
  unparsed : (parsing_error : Text) → Invocation
  raised : ProviderException → Invocation

pub data Method : Type 0 where
  json_schema function_calling : Method

abbrev pub method_operation : Method → Text
method_operation Method.json_schema = codes "openrouter_structured_output.json_schema"
method_operation Method.function_calling = codes "openrouter_structured_output.function_calling"

unfoldable pub is_provider_api_exception : (module_name : Text) → Bool
unfolding starts_with
is_provider_api_exception module_name =
    starts_with module_name (codes "openrouter")
    || starts_with module_name (codes "httpx")
    || starts_with module_name (codes "httpcore")
    || starts_with module_name (codes "langchain")
    || starts_with module_name (codes "langchain_core")

unfoldable pub model_provider_error : (operation : Text) → ProviderException → ModelProviderError
model_provider_error operation (provider_error e) = e
model_provider_error operation (transport_error class_name) = record {
  code = class_name;
  operation = operation;
  retryable = true;
}
model_provider_error operation (value_error class_name) = record {
  code = class_name;
  operation = operation;
  retryable = false;
}
model_provider_error operation (other class_name module_name) = record {
  code = class_name;
  operation = operation;
  retryable = false;
}

-- What a method of _invoke_structured comes to: a schema, a controlled error, or an exception that
-- goes on.
pub data Structured : Type 0 where
  structured : AgentProposalSchema → Structured
  controlled : ModelProviderError → Structured
  escaped : (class_name : Text) → Structured

unfoldable pub attempt : Method → Invocation → Structured
unfolding model_provider_error is_provider_api_exception
attempt method (parsed schema) = structured schema
attempt method (unparsed parsing_error) = controlled (record {
  code = parsing_error;
  operation = codes "openrouter_structured_output";
  retryable = false;
})
attempt method (raised (other class_name module_name)) =
    if is_provider_api_exception module_name
    then controlled (model_provider_error (method_operation method) (other class_name module_name))
    else escaped class_name
attempt method (raised e) = controlled (model_provider_error (method_operation method) e)

-- The second method is tried after a controlled error of the first.
abbrev pub or_second : Structured → Structured → Structured
or_second (structured schema) second = structured schema
or_second (controlled e) second = second
or_second (escaped class_name) second = escaped class_name

-- The settings of OpenRouter, whether its adapter can be imported, and what each method gives.
pub record OpenRouter : Type 0 where
  pub openrouter_api_key : Text
  pub import_error : Option Text
  pub invoke : Method → NormalizedMessage → ConversationState → CatalogContext → Invocation

module _ (model : OpenRouter) where
  unfoldable pub invoke_structured :
      NormalizedMessage → ConversationState → CatalogContext → Structured
  unfolding attempt
  invoke_structured message state context =
      or_second (attempt Method.json_schema (model.invoke Method.json_schema message state context))
        (attempt Method.function_calling
          (model.invoke Method.function_calling message state context))

  abbrev pub failure_result : ModelProviderError → ModelProposalResult
  failure_result e =
      if e.retryable
      then record { proposal = none; retryable_error = some e.code; permanent_error = none }
      else record { proposal = none; retryable_error = none; permanent_error = some e.code }

  abbrev pub proposal_of : CatalogContext → AgentProposalSchema → AgentProposal
  proposal_of context schema = record {
    action_kind = schema.action_kind;
    summary = schema.summary;
    public_message = schema.public_message;
    private_note = schema.private_note;
    risk_reasons = schema.risk_reasons;
    context_snapshot_ids = snapshot_ids context.snapshot_id;
    error_code = none;
  }

  abbrev pub result_of : CatalogContext → Structured → Result ModelProposalResult
  result_of context (structured schema) = ok (proposed (proposal_of context schema))
  result_of context (controlled e) = ok (failure_result e)
  result_of context (escaped class_name) = err (Failure.unexpected class_name)

  abbrev pub key_missing : Bool
  key_missing =
      str_eq model.openrouter_api_key [] || str_eq model.openrouter_api_key (codes "change-me")

  abbrev pub propose_imported :
      Option Text
      → NormalizedMessage
      → ConversationState
      → CatalogContext
      → Result ModelProposalResult
  propose_imported (some class_name) message state context = ok (
      failure_result
        (record { code = class_name; operation = codes "openrouter_import"; retryable = false }))
  propose_imported none message state context =
      result_of context (invoke_structured message state context)

  -- OpenRouterProposalGenerator.propose
  unfoldable pub openrouter_propose :
      NormalizedMessage → ConversationState → CatalogContext → Result ModelProposalResult
  unfolding invoke_structured
  openrouter_propose message state context =
      if key_missing
      then ok (record {
        proposal = none;
        retryable_error = none;
        permanent_error = some (codes "openrouter_api_key_missing");
      })
      else propose_imported model.import_error message state context

pub data ModelProvider : Type 0 where
  fake openrouter : ModelProvider

-- proposal_generator_from_settings
unfoldable pub proposal_generator :
    ModelProvider
    → CustomerLocale
    → OpenRouter
    → NormalizedMessage
    → ConversationState
    → CatalogContext
    → Result ModelProposalResult
unfolding fake_propose openrouter_propose
proposal_generator ModelProvider.openrouter locale model = openrouter_propose model
proposal_generator ModelProvider.fake locale model = fake_propose locale
