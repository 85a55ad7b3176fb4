-- ===== src/Chatwoot/Labels.antt =====
-- integrations/chatwoot.py, add_conversation_labels: which labels the client posts.
use mathlib.Core.Path.{◌≡◌, refl, ap, ◌∙◌}
use mathlib.Core.Logic.{◌⊎◌, ◌↔◌, inl, inr}
use mathlib.Core.Option.{some}
use mathlib.Core.List.{List, ◌∷◌, ◌++◌}
use wootpilot.Prelude.Lists.{◌∈◌, mem-append_left, mem-append_right, mem-append_cases}
use wootpilot.Prelude.Text.{Text, codes, sorted, dedup, mem-sorted, mem-dedup}
use wootpilot.Prelude.Json.{arr, texts, end, field}
use wootpilot.Domain.Outbound.{Result, ok, err}
use wootpilot.Outbound.Checks.{ChannelSafetyState}
use wootpilot.Chatwoot.Client.{
  Chatwoot, Request, method_post, request, conversation_path, add_conversation_labels,
  get_conversation_safety, request_json, and_then, set_conversation_labels,
}

merged-mem :
    (x : Text) (old new : List Text) → (x ∈ sorted (dedup (old ++ new))) ↔ ((x ∈ old) ⊎ (x ∈ new))
merged-mem x old new = (
  λ m.
      mem-append_cases x old new
        ((mem-dedup x (old ++ new)).0 ((mem-sorted x (dedup (old ++ new))).0 m)),
  λ m. (mem-sorted x (dedup (old ++ new))).1 (
      (mem-dedup x (old ++ new)).1 (elim m [
        | inl kept ↦ mem-append_left x old new kept
        | inr added ↦ mem-append_right x old new added
      ])),
)

-- The request that replaces all labels of a conversation.
abbrev pub labels_request : Chatwoot → (conversation_id : Text) → List Text → Request
labels_request client conversation_id labels =
    request client method_post (conversation_path client conversation_id (codes "/labels"))
      (some (field (codes "labels") (arr (texts labels)) end))

answered-sent :
    {A : Type 0} (r : Result A) (sent : List Request)
    → (and_then r (λ _ s. (ok tt, s)) sent).1 ≡ sent
answered-sent (ok a) sent = refl
answered-sent (err e) sent = refl

labels-sent :
    (client : Chatwoot) (conversation_id : Text) (labels : List Text) (sent : List Request)
    → (set_conversation_labels client conversation_id labels sent).1
      ≡ labels_request client conversation_id labels ∷ sent
unfolding set_conversation_labels request_json
labels-sent client conversation_id labels sent =
    answered-sent _ (labels_request client conversation_id labels ∷ sent)

-- Adding labels drops none. Once the conversation has been read, one request is sent, and it posts
-- exactly the labels that the conversation has and the new ones.
pub add_conversation_labels-mem :
    (client : Chatwoot) (conversation_id : Text) (labels : List Text) (sent sent' : List Request)
    (existing : ChannelSafetyState)
    → get_conversation_safety client conversation_id sent ≡ (ok existing, sent')
    → (merged : List Text) × ((add_conversation_labels client conversation_id labels sent).1
        ≡ labels_request client conversation_id merged ∷ sent')
      × ((x : Text) → (x ∈ merged) ↔ ((x ∈ existing.labels) ⊎ (x ∈ labels)))
unfolding add_conversation_labels
add_conversation_labels-mem client conversation_id labels sent sent' existing read = (
  sorted (dedup (existing.labels ++ labels)),
  ap
        (λ (r : Result ChannelSafetyState × List Request).
          (and_then r.0
            (λ known.
              set_conversation_labels client conversation_id
                (sorted (dedup (known.labels ++ labels))))
            r.1).1)
        read
      ∙ labels-sent client conversation_id (sorted (dedup (existing.labels ++ labels))) sent',
  λ x. merged-mem x existing.labels labels,
)
