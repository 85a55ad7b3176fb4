-- ===== src/Workflow/Totality.antt =====
-- src/wootpilot/workflow/graph.py: the end of a run.
use mathlib.Core.Path.{◌≡◌, refl}
use mathlib.Core.Logic.{inl, inr}
use mathlib.Core.Option.{some}
use wootpilot.Prelude.Tests.{Bool-cases}
use wootpilot.Domain.Messages.{
  NormalizedMessage, ConversationState, is_customer_public_inbound, truthy?,
}
use wootpilot.Domain.Catalog.{CatalogContext}
use wootpilot.Domain.Rules.{AutomationMode, ModelProposalResult, is_block, WorkflowDecision}
use wootpilot.Domain.Outbound.{Result, ok}
use wootpilot.Workflow.Graph.{WorkflowState, WorkflowNodes, graph_input, provider_error, run_graph}
use wootpilot.Workflow.Turn.{gate_of, answered, turn, run_graph-turn}

-- The run ends with a state that holds a final decision.
pub record Decides (r : Result WorkflowState) : Type 0 where
  pub state : WorkflowState
  pub decision : WorkflowDecision
  pub returned : r ≡ ok state
  pub decided : state.workflow_decision ≡ some decision

module _ (nodes : WorkflowNodes) (message : NormalizedMessage) (state : ConversationState)
    (context : CatalogContext) (mode : AutomationMode) where
  answered-Decides :
      (result : ModelProposalResult)
      → Decides (ok (answered nodes message state context mode result))
  answered-Decides result = elim (Bool-cases (truthy? (provider_error result))) [
    | inl failed ↦ rw failed (record { state = _; decision = _; returned = refl; decided = refl })
    | inr fine ↦ rw fine (record { state = _; decision = _; returned = refl; decided = refl })
  ]

  turn-Decides :
      (result : ModelProposalResult)
      → nodes.propose message state context ≡ ok result
      → Decides (turn nodes message state context mode)
  unfolding turn
  turn-Decides result p = elim (Bool-cases (is_customer_public_inbound message)) [
    | inr other ↦ rw other (record { state = _; decision = _; returned = refl; decided = refl })
    | inl eligible ↦
        elim (Bool-cases (is_block (gate_of nodes message state context mode).outcome)) [
          | inl block ↦
              rw (eligible, block)
                (record { state = _; decision = _; returned = refl; decided = refl })
          | inr free ↦ rw (eligible, free, p) (answered-Decides result)
        ]
  ]

-- Whenever the model provider returns a result, whatever it is, the graph ends within LangGraph's
-- step limit, raises nothing, and leaves a final decision.
pub run_graph-Decides :
    (nodes : WorkflowNodes) (message : NormalizedMessage) (state : ConversationState)
    (context : CatalogContext) (mode : AutomationMode) (result : ModelProposalResult)
    → nodes.propose message state context ≡ ok result
    → Decides (run_graph nodes (graph_input message state context mode))
run_graph-Decides nodes message state context mode result p =
    rw (run_graph-turn nodes message state context mode)
      (turn-Decides nodes message state context mode result p)
