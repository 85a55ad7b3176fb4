-- ===== src/Policy/Rules.antt =====
-- src/wootpilot/application/policy.py: triage, the gate before the model, and the checks of a
-- proposal. The clock reading and the fresh id of a decision are arguments.
use Prim.Native.Nat.{ℕ}
use mathlib.Core.Bool.{Bool, true, false, ◌&&◌, ◌||◌, not}
use mathlib.Core.Option.{Option, none, some}
use mathlib.Core.List.{List, [], ◌∷◌, ◌++◌, map}
use wootpilot.Prelude.Tests.{ltb, if◌then◌else◌, is_some}
use wootpilot.Prelude.Lists.{any, filter}
use wootpilot.Prelude.Text.{Text, codes, truthy, mem_text, contains, sorted}
use wootpilot.Domain.Messages.{
  NormalizedMessage, ConversationState, is_customer_public_inbound, is_resolved, truthy?,
}
use wootpilot.Domain.Catalog.{CatalogContext, ProductSnapshot}
use wootpilot.Domain.Rules.{
  AutomationMode, is_public_reply, AgentProposal, is_public_message, PolicyOutcome, PolicyStage,
  PolicyRule, PolicyDecision, TriageResult,
}
use wootpilot.Policy.Searchable.{
  Unicode, searchable_text, mentions_exact_price, normalize_price_text,
}

-- HANDOFF_TERMS
abbrev pub handoff_terms : List (Text × Text)
handoff_terms =
    (codes "account", codes "account")
    ∷ (codes "agent", codes "agent")
    ∷ (codes "atendente", codes "agent")
    ∷ (codes "callback", codes "callback")
    ∷ (codes "cancel", codes "cancel")
    ∷ (codes "cancelamento", codes "cancel")
    ∷ (codes "cancelar", codes "cancel")
    ∷ (codes "cancellation", codes "cancel")
    ∷ (codes "complaint", codes "complaint")
    ∷ (codes "devolucao", codes "refund")
    ∷ (codes "discount", codes "discount")
    ∷ (codes "desconto", codes "discount")
    ∷ (codes "entrega", codes "delivery")
    ∷ (codes "estorno", codes "refund")
    ∷ (codes "garantia", codes "warranty")
    ∷ (codes "gerente", codes "manager")
    ∷ (codes "human", codes "human")
    ∷ (codes "humano", codes "human")
    ∷ (codes "ignore previous", codes "prompt_injection")
    ∷ (codes "ignora as instrucoes", codes "prompt_injection")
    ∷ (codes "instrucoes anteriores", codes "prompt_injection")
    ∷ (codes "internal", codes "internal")
    ∷ (codes "interno", codes "internal")
    ∷ (codes "manager", codes "manager")
    ∷ (codes "nota fiscal", codes "invoice")
    ∷ (codes "pedido", codes "order")
    ∷ (codes "person", codes "human")
    ∷ (codes "pessoa", codes "human")
    ∷ (codes "prazo", codes "delivery")
    ∷ (codes "private", codes "private")
    ∷ (codes "privado", codes "private")
    ∷ (codes "refund", codes "refund")
    ∷ (codes "reembolso", codes "refund")
    ∷ (codes "reclamacao", codes "complaint")
    ∷ (codes "senha", codes "password")
    ∷ (codes "troca", codes "exchange")
    ∷ (codes "warranty", codes "warranty")
    ∷ []

-- PUBLIC_INTERNAL_REASONING_TERMS
abbrev pub public_internal_reasoning_terms : List Text
public_internal_reasoning_terms =
    codes "internal"
    ∷ codes "interno"
    ∷ codes "instrucoes"
    ∷ codes "policy"
    ∷ codes "politica"
    ∷ codes "raciocinio"
    ∷ codes "reasoning"
    ∷ codes "triage"
    ∷ codes "triagem"
    ∷ []

-- `if test: rule_ids.append(rule)`
abbrev pub when : Bool → PolicyRule → List PolicyRule
when true rule = rule ∷ []
when false rule = []

-- `PolicyOutcome.block if rule_ids else PolicyOutcome.allow`
abbrev pub outcome_of : List PolicyRule → PolicyOutcome
outcome_of [] = PolicyOutcome.allow
outcome_of (_ ∷ _) = PolicyOutcome.block

-- f"intent.{signal}"
abbrev pub intent_signal : Text → Text
intent_signal signal = codes "intent." ++ signal

-- `until and until > now`
abbrev pub is_after : Option ℕ → ℕ → Bool
is_after none now = false
is_after (some t) now = ltb now t

-- `if price_rule: rule_ids.append(price_rule)`
abbrev pub option_rule : Option PolicyRule → List PolicyRule
option_rule none = []
option_rule (some rule) = rule ∷ []

-- bool(texts)
abbrev pub not_empty : List Text → Bool
not_empty [] = false
not_empty (_ ∷ _) = true

-- The products whose price the customer may be told.
unfoldable pub price_is_mentionable : ProductSnapshot → Bool
price_is_mentionable p =
    p.price.can_mention
    && truthy? p.price.display_text
    && not p.price.hidden
    && not p.price.quote_required
    && not p.price.stale
    && elim p.availability.is_available [ some false ↦ false | _ ↦ true ]

abbrev pub display_text_of : ProductSnapshot → Text
display_text_of p = elim p.price.display_text [ none ↦ [] | some t ↦ t ]

-- `proposal.public_message or ""`
abbrev pub or_empty : Option Text → Text
or_empty none = []
or_empty (some t) = t

unfoldable pub pre_model_rules :
    NormalizedMessage → ConversationState → TriageResult → AutomationMode → ℕ → List PolicyRule
pre_model_rules message state triage automation_mode now =
    when (not (is_customer_public_inbound message))
      PolicyRule.ingress_customer_public_inbound_required
    ++ (when (not state.replyable) PolicyRule.conversation_not_replyable
        ++ (when (is_resolved state.status) PolicyRule.conversation_resolved
            ++ (when state.paused PolicyRule.conversation_wootpilot_paused
                ++ (when (is_public_reply automation_mode && is_after state.human_active_until now)
                      PolicyRule.conversation_human_active
                    ++ (when
                          (is_public_reply automation_mode
                            && (truthy? state.assigned_agent_id || truthy? state.assigned_team_id))
                          PolicyRule.conversation_assigned_to_human
                        ++ when
                            (mem_text (codes "intent.human") triage.risk_signals
                              || mem_text (codes "intent.agent") triage.risk_signals)
                            PolicyRule.intent_human_requested)))))

unfoldable pub pre_model_policy :
    NormalizedMessage
    → ConversationState
    → TriageResult
    → AutomationMode
    → (now : ℕ) (id : Text) → PolicyDecision
pre_model_policy message state triage automation_mode now id =
    let rule_ids = pre_model_rules message state triage automation_mode now in
    record {
      id = id;
      stage = PolicyStage.pre_model;
      outcome = outcome_of rule_ids;
      rule_ids = rule_ids;
      created_at = now;
    }

module _ (u : Unicode) where
  -- [f"intent.{signal}" for term, signal in HANDOFF_TERMS.items() if term in content]
  unfoldable pub risk_signals_of : Text → List (Text × Text) → List Text
  risk_signals_of content terms =
      map (λ entry. intent_signal entry.1) (filter (λ entry. contains content entry.0) terms)

  unfoldable pub triage_message : NormalizedMessage → TriageResult
  unfolding risk_signals_of
  triage_message message =
      let risk_signals = risk_signals_of (searchable_text u message.content) handoff_terms in
      record {
        should_invoke = true;
        intent = elim risk_signals [
          | [] ↦ codes "product_or_support"
          | _ ∷ _ ↦ codes "handoff_requested"
        ];
        risk_signals = sorted risk_signals;
      }

  unfoldable pub public_internal_reasoning_rule : Text → Option PolicyRule
  public_internal_reasoning_rule text =
      if any (contains (searchable_text u text)) public_internal_reasoning_terms
      then some PolicyRule.public_no_internal_reasoning
      else none

  -- A set in the source; only membership is asked of it.
  unfoldable pub mentionable_prices : CatalogContext → List Text
  mentionable_prices catalog_context =
      map (λ p. normalize_price_text u (display_text_of p))
        (filter price_is_mentionable catalog_context.products)

  unfoldable pub public_price_policy_rule : Text → CatalogContext → Option PolicyRule
  public_price_policy_rule text catalog_context =
      let normalized_text = normalize_price_text u text in
      if not (mentions_exact_price u text)
      then none
      else if any (λ price. truthy price && contains normalized_text price)
          (mentionable_prices catalog_context)
      then none
      else some PolicyRule.public_price_requires_mentionable_snapshot

  unfoldable pub proposal_rules :
      Option AgentProposal → AutomationMode → TriageResult → CatalogContext → List PolicyRule
  proposal_rules none automation_mode triage catalog_context = PolicyRule.model_no_proposal ∷ []
  proposal_rules (some proposal) automation_mode triage catalog_context =
      let text = or_empty proposal.public_message in
      if is_public_reply automation_mode && is_public_message proposal.action_kind
      then when (is_some (public_internal_reasoning_rule text))
          PolicyRule.public_no_internal_reasoning
        ++ (when (not_empty triage.risk_signals) PolicyRule.public_risk_requires_review
            ++ (when (not_empty proposal.risk_reasons)
                  PolicyRule.public_proposal_risk_requires_review
                ++ option_rule (public_price_policy_rule text catalog_context)))
      else []

  unfoldable pub validate_proposal :
      Option AgentProposal
      → AutomationMode
      → TriageResult
      → CatalogContext
      → (now : ℕ) (id : Text) → PolicyDecision
  validate_proposal proposal automation_mode triage catalog_context now id =
      let rule_ids = proposal_rules proposal automation_mode triage catalog_context in
      record {
        id = id;
        stage = PolicyStage.post_model;
        outcome = outcome_of rule_ids;
        rule_ids = rule_ids;
        created_at = now;
      }
