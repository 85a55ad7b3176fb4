-- ===== src/Model/Fake.antt =====
-- src/wootpilot/integrations/model.py: FakeProposalGenerator, and what both generators share.
use mathlib.Core.Option.{Option, none, some}
use mathlib.Core.List.{List, [], ◌∷◌, ◌++◌}
use wootpilot.Prelude.Tests.{if◌then◌else◌}
use wootpilot.Prelude.Text.{Text, codes, truthy}
use wootpilot.Domain.Messages.{ConversationState, NormalizedMessage}
use wootpilot.Domain.Catalog.{CatalogContext, ProductSnapshot}
use wootpilot.Domain.Rules.{AgentActionKind, AgentProposal, ModelProposalResult}
use wootpilot.Domain.Outbound.{Result, ok}
use wootpilot.Model.Prompt.{CustomerLocale}

-- [catalog_context.snapshot_id] if catalog_context.snapshot_id else []
abbrev pub snapshot_ids : Option Text → List Text
snapshot_ids none = []
snapshot_ids (some id) = if truthy id then id ∷ [] else []

-- f"{value}" of a `str | None`
abbrev pub shown : Option Text → Text
shown none = codes "None"
shown (some t) = t

-- The public text, the private text and the summary of the fake model.
pub record FakeText : Type 0 where
  pub public : Text
  pub private : Text
  pub summary : Text

abbrev pub found_text : CustomerLocale → (name : Text) (url : Option Text) → FakeText
found_text CustomerLocale.pt_br name url =
    let public = name ++ (codes " pode atender ao seu pedido. Página do produto: " ++ shown url) in
    record {
      public = public;
      private = codes "Resposta sugerida: " ++ public;
      summary = codes "Contexto de catálogo encontrado para " ++ (name ++ codes ".");
    }
found_text CustomerLocale.en name url =
    let public = name ++ (codes " may match your request. Product page: " ++ shown url) in
    record {
      public = public;
      private = codes "Suggested reply: " ++ public;
      summary = codes "Found catalog context for " ++ (name ++ codes ".");
    }

abbrev pub missing_text : CustomerLocale → FakeText
missing_text CustomerLocale.pt_br =
    let public = codes "Obrigado pelo contato. Pode compartilhar mais alguns detalhes?" in
    record {
      public = public;
      private = codes "Resposta sugerida: " ++ public;
      summary = codes "Sem correspondência direta no catálogo; pedir mais detalhes.";
    }
missing_text CustomerLocale.en =
    let public = codes "Thanks for reaching out. Could you share a few more details?" in
    record {
      public = public;
      private = codes "Suggested reply: " ++ public;
      summary = codes "No direct catalog match; ask a concise follow-up.";
    }

unfoldable pub fake_proposal_text :
    (product_name product_url : Option Text) → CustomerLocale → FakeText
fake_proposal_text none url locale = missing_text locale
fake_proposal_text (some name) url locale =
    if truthy name then found_text locale name url else missing_text locale

-- catalog_context.products[0].name and .permalink, where there is a product
abbrev pub first_name : List ProductSnapshot → Option Text
first_name [] = none
first_name (product ∷ _) = some product.name

abbrev pub first_url : List ProductSnapshot → Option Text
first_url [] = none
first_url (product ∷ _) = product.permalink

abbrev pub proposed : AgentProposal → ModelProposalResult
proposed proposal = record {
  proposal = some proposal;
  retryable_error = none;
  permanent_error = none;
}

-- FakeProposalGenerator.propose
unfoldable pub fake_propose :
    CustomerLocale
    → NormalizedMessage
    → ConversationState
    → CatalogContext
    → Result ModelProposalResult
unfolding fake_proposal_text
fake_propose locale message state context =
    let text =
      fake_proposal_text (first_name context.products) (first_url context.products) locale in
    ok (
      proposed (record {
        action_kind = AgentActionKind.private_note;
        summary = text.summary;
        public_message = some text.public;
        private_note = some text.private;
        risk_reasons = context.risk_signals;
        context_snapshot_ids = snapshot_ids context.snapshot_id;
        error_code = none;
      }))
