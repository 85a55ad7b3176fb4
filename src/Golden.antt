-- ===== src/Golden.antt =====
-- src/wootpilot/evals/golden.py: the runner of the golden cases. Reading the file of cases is left
-- out.
use Prim.Native.Nat.{ℕ, ◌≤◌}
use mathlib.Core.Path.{◌≡◌, refl, ap, ◌∙◌, sym}
use mathlib.Core.Logic.{inl, inr}
use mathlib.Core.Bool.{Bool, true, false}
use mathlib.Core.Option.{Option, none, some}
use mathlib.Core.List.{List, [], ◌++◌}
use native.Mathlib.Omega.{arith}
use wootpilot.Prelude.Tests.{if◌then◌else◌, Bool-cases}
use wootpilot.Prelude.Text.{Text, codes}
use wootpilot.Prelude.Json.{Json, bool, Fields, get, get_or, is_truthy}
use wootpilot.Domain.Messages.{
  ConversationState, MessageAuthorType, MessageDirection, MessageVisibility, NormalizedMessage,
  is_customer_public_inbound, no_metadata,
}
use wootpilot.Domain.Catalog.{CatalogContext}
use wootpilot.Domain.Rules.{
  AgentActionKind, AgentRunStatus, AutomationMode, ModelProposalResult, PolicyDecision, PolicyRule,
  WorkflowDecision, is_block,
}
use wootpilot.Domain.Outbound.{Result, ok, err, ◌>>=◌, Failure}
use wootpilot.Policy.Rules.{is_after, pre_model_policy, pre_model_rules}
use wootpilot.Workflow.Graph.{
  Node, WorkflowNodes, WorkflowState, blocked_decision, graph_input, run_graph,
}
use wootpilot.Workflow.Turn.{gate_of, run_graph-turn, turn}

-- The expectations of a case are not read by its run.
pub record GoldenConversationCase : Type 0 where
  pub id : Text
  pub automation_mode : AutomationMode
  pub message : Text
  pub proposal_action_kind : AgentActionKind
  pub proposal_public_message : Option Text
  pub proposal_private_note : Option Text
  pub proposal_risk_reasons : List Text
  pub catalog_risk_signals : List Text
  pub state : Fields

pub record GoldenResult : Type 0 where
  pub id : Text
  pub status : AgentRunStatus
  pub action_kind : AgentActionKind
  pub rule_ids : List PolicyRule

-- _StaticProposalGenerator.propose
unfoldable pub golden_proposal : GoldenConversationCase → ModelProposalResult
golden_proposal case = record {
  proposal = some (record {
    action_kind = case.proposal_action_kind;
    summary = codes "Golden proposal for " ++ case.id;
    public_message = case.proposal_public_message;
    private_note = case.proposal_private_note;
    risk_reasons = case.proposal_risk_reasons;
    context_snapshot_ids = [];
    error_code = none;
  });
  retryable_error = none;
  permanent_error = none;
}

unfoldable pub golden_message : (now : ℕ) → GoldenConversationCase → NormalizedMessage
golden_message now case = record {
  id = case.id ++ codes "-message";
  raw_event_id = case.id ++ codes "-raw";
  tenant_id = codes "tenant-1";
  provider_account_id = [];
  provider_inbox_id = [];
  provider_conversation_id = [];
  provider_message_id = [];
  provider_contact_id = none;
  channel_id = codes "channel-1";
  conversation_id = case.id ++ codes "-conversation";
  message_id = case.id ++ codes "-provider-message";
  contact_id = none;
  direction = MessageDirection.inbound;
  visibility = MessageVisibility.public;
  author_type = MessageAuthorType.customer;
  content = case.message;
  attachments = [];
  created_at = now;
  metadata = no_metadata;
}

-- A field of a strict model with the type `bool`.
abbrev pub strict_bool : Json → Result Bool
strict_bool (bool b) = ok b
strict_bool _ = err Failure.value_error

-- The state of a case, given whether a person is marked as active.
abbrev pub golden_state :
    (now : ℕ) → GoldenConversationCase → (replyable paused human_active : Bool) → ConversationState
golden_state now case replyable paused human_active = record {
  id = case.id ++ codes "-state";
  tenant_id = codes "tenant-1";
  channel_id = codes "channel-1";
  conversation_id = case.id ++ codes "-conversation";
  human_active_until = if human_active then some now else none;
  last_human_public_message_at = none;
  last_customer_message_at = none;
  assigned_agent_id = none;
  assigned_team_id = none;
  status = none;
  replyable = replyable;
  paused = paused;
  updated_at = now;
}

unfoldable pub golden_context : GoldenConversationCase → CatalogContext
golden_context case = record {
  query = case.message;
  products = [];
  risk_signals = case.catalog_risk_signals;
  snapshot_id = none;
}

-- result["workflow_decision"]; a missing key is KeyError.
abbrev pub golden_result : (id : Text) → Option WorkflowDecision → Result GoldenResult
golden_result id none = err (Failure.unexpected (codes "KeyError"))
golden_result id (some decision) = ok (record {
  id = id;
  status = decision.status;
  action_kind = decision.action_kind;
  rule_ids = decision.rule_ids;
})

-- The nodes are those of a graph that is built with the generator of the case.
unfoldable pub golden_nodes : WorkflowNodes → GoldenConversationCase → WorkflowNodes
unfolding golden_proposal
golden_nodes nodes case = record nodes { propose = λ _ _ _. ok (golden_proposal case) }

abbrev pub run_with_state :
    WorkflowNodes → (now : ℕ) → GoldenConversationCase → ConversationState → Result GoldenResult
run_with_state nodes now case state =
    run_graph (golden_nodes nodes case)
      (graph_input (golden_message now case) state (golden_context case) case.automation_mode)
    >>= λ result. golden_result case.id result.workflow_decision

unfoldable pub run_golden_case :
    WorkflowNodes → (now : ℕ) → GoldenConversationCase → Result GoldenResult
run_golden_case nodes now case = do
  replyable ← strict_bool (get_or case.state (codes "replyable") (bool true))
  paused ← strict_bool (get_or case.state (codes "paused") (bool false))
  run_with_state nodes now case
      (golden_state now case replyable paused (is_truthy (get case.state (codes "human_active"))))

module _ (nodes : WorkflowNodes) (now : ℕ) (case : GoldenConversationCase)
    (replyable paused : Bool) where
  abbrev state_with : Bool → ConversationState
  state_with = golden_state now case replyable paused

  abbrev gate_with : Bool → PolicyDecision
  gate_with active =
      gate_of (golden_nodes nodes case) (golden_message now case) (state_with active)
        (golden_context case) case.automation_mode

  -- The gate reads the mark of a person only against the clock, which has passed it.
  gate_ignores : now ≤ nodes.now Node.policy_gate → gate_with true ≡ gate_with false
  unfolding pre_model_policy pre_model_rules golden_nodes
  gate_ignores late =
      let passed : is_after (some now) (nodes.now Node.policy_gate) ≡ false = ground arith in
      rw passed refl

  decided : Result WorkflowState → Result GoldenResult
  decided r = r >>= λ result. golden_result case.id result.workflow_decision

  turn_ignores :
      now ≤ nodes.now Node.policy_gate
      → decided (
          turn
            (golden_nodes nodes case)
            (golden_message now case)
            (state_with true)
            (golden_context case)
            case.automation_mode)
        ≡ decided (
            turn
              (golden_nodes nodes case)
              (golden_message now case)
              (state_with false)
              (golden_context case)
              case.automation_mode)
  unfolding turn decided golden_nodes golden_proposal blocked_decision graph_input
  turn_ignores late = elim (Bool-cases (is_customer_public_inbound (golden_message now case))) [
    | inr other ↦ rw other refl
    | inl eligible ↦ elim (Bool-cases (is_block (gate_with false).outcome)) [
      | inl block ↦ rw (eligible, gate_ignores late, block) refl
      | inr free ↦ rw (eligible, gate_ignores late, free) refl
    ]
  ]

  state_ignores :
      now ≤ nodes.now Node.policy_gate
      → run_with_state nodes now case (state_with true)
        ≡ run_with_state nodes now case (state_with false)
  unfolding decided
  state_ignores late =
      ap decided (
        run_graph-turn (golden_nodes nodes case) (golden_message now case) (state_with true)
          (golden_context case) case.automation_mode)
      ∙ turn_ignores late
      ∙ sym (
          ap decided (
            run_graph-turn (golden_nodes nodes case) (golden_message now case) (state_with false)
              (golden_context case) case.automation_mode))

  flag_ignored :
      (active active' : Bool)
      → now ≤ nodes.now Node.policy_gate
      → run_with_state nodes now case (state_with active)
        ≡ run_with_state nodes now case (state_with active')
  flag_ignored true true late = refl
  flag_ignored true false late = state_ignores late
  flag_ignored false true late = sym (state_ignores late)
  flag_ignored false false late = refl

-- The flag human_active of a case has no effect: where the clock of the policy gate does not run
-- behind that of the runner, two cases that differ only in it, and in other keys of their state that
-- nothing reads, have the same result.
pub run_golden_case-human_active :
    (nodes : WorkflowNodes) (now : ℕ) (case : GoldenConversationCase) (state : Fields)
    → now ≤ nodes.now Node.policy_gate
    → get_or state (codes "replyable") (bool true)
      ≡ get_or case.state (codes "replyable") (bool true)
    → get_or state (codes "paused") (bool false) ≡ get_or case.state (codes "paused") (bool false)
    → run_golden_case nodes now (record case { state = state }) ≡ run_golden_case nodes now case
unfolding run_golden_case golden_nodes golden_proposal golden_message golden_context
run_golden_case-human_active nodes now case state late replyable paused =
    rw (replyable, paused)
      λ i. strict_bool (get_or case.state (codes "replyable") (bool true)) >>= λ can_reply.
        strict_bool (get_or case.state (codes "paused") (bool false)) >>= λ is_paused.
        flag_ignored nodes now case can_reply is_paused
          (is_truthy (get state (codes "human_active")))
          (is_truthy (get case.state (codes "human_active"))) late i
