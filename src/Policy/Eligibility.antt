-- ===== src/Policy/Eligibility.antt =====
-- The gate before the model, application/policy.py: pre_model_policy against an independent account
-- of when a turn may go to the model.
use Prim.Native.Nat.{ℕ}
use mathlib.Core.Path.{◌≡◌, refl}
use mathlib.Core.Logic.{◌↔◌}
use mathlib.Core.Bool.{true, false}
use native.Mathlib.Omega.{arith}
use wootpilot.Prelude.Text.{Text, codes, mem_text}
use wootpilot.Domain.Messages.{
  NormalizedMessage, ConversationState, is_customer_public_inbound, is_resolved, truthy?,
}
use wootpilot.Domain.Rules.{AutomationMode, PolicyOutcome, TriageResult}
use wootpilot.Policy.Rules.{is_after, pre_model_rules, pre_model_policy}

-- What keeps customer-visible automation away while a person handles the conversation.
pub record NoHuman (state : ConversationState) (now : ℕ) : Type 0 where
  pub not_active : is_after state.human_active_until now ≡ false
  pub no_agent : truthy? state.assigned_agent_id ≡ false
  pub no_team : truthy? state.assigned_team_id ≡ false

pub record MayAssist (message : NormalizedMessage) (state : ConversationState)
    (triage : TriageResult) (mode : AutomationMode) (now : ℕ) : Type 0 where
  pub eligible : is_customer_public_inbound message ≡ true
  pub replyable : state.replyable ≡ true
  pub not_resolved : is_resolved state.status ≡ false
  pub not_paused : state.paused ≡ false
  pub no_human : mode ≡ AutomationMode.public_reply → NoHuman state now
  pub no_human_intent : mem_text (codes "intent.human") triage.risk_signals ≡ false
  pub no_agent_intent : mem_text (codes "intent.agent") triage.risk_signals ≡ false

module _ (message : NormalizedMessage) (state : ConversationState) (triage : TriageResult) (now : ℕ)
    (id : Text) where
  allow→MayAssist :
      (mode : AutomationMode)
      → (pre_model_policy message state triage mode now id).outcome ≡ PolicyOutcome.allow
      → MayAssist message state triage mode now
  unfolding pre_model_policy pre_model_rules
  allow→MayAssist AutomationMode.public_reply h = ground arith
  allow→MayAssist _ h = ground arith

  MayAssist→allow :
      (mode : AutomationMode)
      → MayAssist message state triage mode now
      → (pre_model_policy message state triage mode now id).outcome ≡ PolicyOutcome.allow
  unfolding pre_model_policy pre_model_rules
  MayAssist→allow AutomationMode.public_reply h = ground (arith, h.no_human refl)
  MayAssist→allow _ h = ground arith

-- The gate allows a turn exactly when the message is a non-blank public customer message, the
-- conversation is replyable, neither resolved nor paused, no human or agent was asked for, and, in
-- public_reply mode, no human is active and no agent or team is assigned.
pub pre_model_policy-allow_iff :
    (message : NormalizedMessage) (state : ConversationState) (triage : TriageResult)
    (mode : AutomationMode) (now : ℕ) (id : Text)
    → ((pre_model_policy message state triage mode now id).outcome ≡ PolicyOutcome.allow)
      ↔ MayAssist message state triage mode now
pre_model_policy-allow_iff message state triage mode now id = (
  allow→MayAssist message state triage now id mode,
  MayAssist→allow message state triage now id mode,
)
