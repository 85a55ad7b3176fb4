-- ===== src/Tests/Fixtures.antt =====
-- A small support conversation: a customer's question, a quoted product, and a model's answer. The
-- Unicode tables are those of ASCII.
use Prim.Native.Nat.{ℕ, ◌+◌, ◌-◌}
use mathlib.Core.Bool.{Bool, true, false, ◌&&◌, ◌||◌}
use mathlib.Core.Option.{Option, none, some}
use mathlib.Core.List.{[], ◌∷◌, map}
use wootpilot.Prelude.Tests.{leb, if◌then◌else◌}
use wootpilot.Prelude.Text.{Text, codes}
use wootpilot.Domain.Messages.{
  MessageDirection, MessageVisibility, MessageAuthorType, ConversationStatus, no_metadata,
  NormalizedMessage, ConversationState,
}
use wootpilot.Domain.Catalog.{ProductSnapshot, CatalogContext}
use wootpilot.Domain.Rules.{AgentActionKind, AgentProposal, ModelProposalResult, TriageResult}
use wootpilot.Domain.Outbound.{ok}
use wootpilot.Policy.Searchable.{Unicode}
use wootpilot.Workflow.Graph.{Node, WorkflowNodes}
use wootpilot.Persistence.Rows.{ConversationStateRow}

abbrev pub lower_code : ℕ → ℕ
lower_code c = if leb 65 c && leb c 90 then c + 32 else c

abbrev pub is_digit : ℕ → Bool
is_digit c = leb 48 c && leb c 57

abbrev pub is_word : ℕ → Bool
is_word c = is_digit c || leb 97 (lower_code c) && leb (lower_code c) 122 || leb 95 c && leb c 95

abbrev pub ascii : Unicode
ascii = record {
  nfkd = λ t. t;
  combining = λ _. false;
  casefold = map lower_code;
  lower = map lower_code;
  digit = is_digit;
  word = is_word;
}

abbrev pub decimal_of : ℕ → Option ℕ
decimal_of c = if leb 48 c && leb c 57 then some (c - 48) else none

abbrev pub question : NormalizedMessage
question = record {
  id = codes "n1";
  raw_event_id = codes "r1";
  tenant_id = codes "t";
  provider_account_id = codes "1";
  provider_inbox_id = codes "2";
  provider_conversation_id = codes "9";
  provider_message_id = codes "10";
  provider_contact_id = none;
  channel_id = codes "2";
  conversation_id = codes "9";
  message_id = codes "10";
  contact_id = none;
  direction = MessageDirection.inbound;
  visibility = MessageVisibility.public;
  author_type = MessageAuthorType.customer;
  content = codes "Any cap?";
  attachments = [];
  created_at = 100;
  metadata = no_metadata;
}

abbrev pub follow_up : NormalizedMessage
follow_up = record question {
  id = codes "n2";
  message_id = codes "11";
  content = codes "human, please";
  created_at = 100;
}

abbrev pub calm : ConversationState
calm = record {
  id = codes "s1";
  tenant_id = codes "t";
  channel_id = codes "2";
  conversation_id = codes "9";
  human_active_until = some 50;
  last_human_public_message_at = none;
  last_customer_message_at = none;
  assigned_agent_id = none;
  assigned_team_id = none;
  status = some ConversationStatus.open_status;
  replyable = true;
  paused = false;
  updated_at = 0;
}

abbrev pub calm_row : ConversationStateRow
calm_row = record {
  id = codes "s1";
  tenant_id = codes "t";
  channel_id = codes "2";
  conversation_id = codes "9";
  human_active_until = some 50;
  last_human_public_message_at = none;
  last_customer_message_at = none;
  assigned_agent_id = none;
  assigned_team_id = none;
  status = some (codes "open");
  replyable = true;
  paused = false;
  updated_at = 0;
}

abbrev pub cap_product : ProductSnapshot
cap_product = record {
  product_id = codes "p1";
  sku = none;
  name = codes "Cap";
  permalink = none;
  categories = [];
  tags = [];
  fitment_hints = [];
  price = record {
    amount = some (record { currency = codes "USD"; negative = false; minor_units = 900 });
    display_text = some (codes "$9.00");
    can_mention = true;
    quote_required = false;
    hidden = false;
    stale = false;
    reason = none;
  };
  availability = record {
    is_available = some true;
    display_text = none;
    can_mention = true;
    hidden_quantity = false;
    uncertain_reasons = [];
  };
  risk_signals = [];
}

abbrev pub caps : CatalogContext
caps = record {
  query = codes "cap";
  products = cap_product ∷ [];
  risk_signals = [];
  snapshot_id = some (codes "c1");
}

abbrev pub quoted_reply : Text
quoted_reply = codes "Yes, $9.00"

abbrev pub nothing_found : TriageResult
nothing_found = record { should_invoke = true; intent = codes "support"; risk_signals = [] }

abbrev pub reply : AgentProposal
reply = record {
  action_kind = AgentActionKind.public_message;
  summary = codes "answers";
  public_message = some quoted_reply;
  private_note = none;
  risk_reasons = [];
  context_snapshot_ids = [];
  error_code = none;
}

abbrev pub answer : ModelProposalResult
answer = record { proposal = some reply; retryable_error = none; permanent_error = none }

abbrev pub decision_id : Node → Text
decision_id Node.policy_gate = codes "d1"
decision_id _ = codes "d2"

abbrev pub model : WorkflowNodes
model = record {
  unicode = ascii;
  propose = λ _ _ _. ok answer;
  now = λ _. 100;
  new_id = decision_id;
}
