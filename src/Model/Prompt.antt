-- ===== src/Model/Prompt.antt =====
-- src/wootpilot/integrations/model.py: what the prompt shows of the conversation and the catalog. The
-- fixed texts of the prompt are left out.
use mathlib.Core.Bool.{Bool, true, false, ◌&&◌, ◌||◌, not}
use mathlib.Core.Option.{Option, none, some}
use mathlib.Core.List.{List, [], ◌∷◌, map}
use wootpilot.Prelude.Tests.{if◌then◌else◌, is_some}
use wootpilot.Prelude.Text.{Text, codes}
use wootpilot.Prelude.Json.{
  Json, null, bool, str, arr, obj, texts, Items, nil, item, Fields, end, field,
}
use wootpilot.Domain.Messages.{ConversationState, ConversationStatus, NormalizedMessage, truthy?}
use wootpilot.Domain.Catalog.{CatalogContext, ProductSnapshot}
use wootpilot.Ingress.State.{status_value}

pub data CustomerLocale : Type 0 where
  pt_br en : CustomerLocale

abbrev pub locale_value : CustomerLocale → Text
locale_value CustomerLocale.pt_br = codes "pt-BR"
locale_value CustomerLocale.en = codes "en"

-- A `str | None` as JSON.
abbrev pub text_or_null : Option Text → Json
text_or_null none = null
text_or_null (some t) = str t

-- `availability.is_available is not False`
abbrev pub is_not_false : Option Bool → Bool
is_not_false (some false) = false
is_not_false _ = true

unfoldable pub price_can_be_shown_to_model : ProductSnapshot → Bool
price_can_be_shown_to_model product =
    product.price.can_mention
    && truthy? product.price.display_text
    && not product.price.hidden
    && not product.price.quote_required
    && not product.price.stale
    && is_not_false product.availability.is_available

unfoldable pub product_for_prompt : ProductSnapshot → Fields
unfolding price_can_be_shown_to_model
product_for_prompt product =
    let shown = price_can_be_shown_to_model product in
    let policy = if shown then codes "mention_allowed" else codes "do_not_mention_exact_price" in
    field (codes "name") (str product.name) (
      field (codes "sku") (text_or_null product.sku) (
        field (codes "url") (text_or_null product.permalink) (
          field (codes "priceCanMention") (bool shown) (
            field (codes "price") (if shown then text_or_null product.price.display_text else null)
              (field (codes "pricePolicy") (str policy) (
                field (codes "availability")
                  (if product.availability.can_mention
                    then text_or_null product.availability.display_text
                    else null)
                  (field (codes "riskSignals") (arr (texts product.risk_signals)) end)))))))

abbrev pub rows : List Fields → Items
rows [] = nil
rows (f ∷ fs) = item (obj f) (rows fs)

unfoldable pub catalog_products_for_prompt : CatalogContext → List Fields
unfolding product_for_prompt
catalog_products_for_prompt context = map product_for_prompt context.products

abbrev pub status_or_null : Option ConversationStatus → Json
status_or_null none = null
status_or_null (some status) = str (status_value status)

unfoldable pub conversation_state_for_prompt : ConversationState → Fields
conversation_state_for_prompt state = field (codes "replyable") (bool state.replyable) (
    field (codes "status") (status_or_null state.status) (
      field (codes "paused") (bool state.paused) (
        field (codes "assigned")
          (bool (truthy? state.assigned_agent_id || truthy? state.assigned_team_id))
          (field (codes "humanActive") (bool (is_some state.human_active_until)) (
            field (codes "hasRecentHumanPublicReply")
              (bool (is_some state.last_human_public_message_at)) end)))))

-- The payload of the prompt, whose fixed texts are `instruction` and `task`.
unfoldable pub support_proposal_payload :
    (version instruction task : Text)
    → NormalizedMessage
    → ConversationState
    → CatalogContext
    → CustomerLocale
    → Fields
unfolding catalog_products_for_prompt conversation_state_for_prompt
support_proposal_payload version instruction task message state context locale =
    let catalog = field (codes "query") (str context.query) (
      field (codes "products") (arr (rows (catalog_products_for_prompt context)))
        (field (codes "riskSignals") (arr (texts context.risk_signals)) end)) in
    field (codes "Prompt version") (str version) (
      field (codes "Response locale") (str (locale_value locale)) (
        field (codes "Language instruction") (str instruction) (
          field (codes "Customer message (untrusted)") (str message.content) (
            field (codes "Conversation safety summary") (obj (conversation_state_for_prompt state))
              (field (codes "Catalog context") (obj catalog)
                (field (codes "Task") (str task) end))))))
