-- ===== src/Tests/QueueRuns.antt =====
-- Runs of the queue on the tables with one queued reply.
use mathlib.Core.Path.{◌≡◌, refl}
use mathlib.Core.Logic.{◌≢◌, ◌↔◌, inl}
use mathlib.Core.Bool.{true, false}
use mathlib.Core.List.{[], ◌∷◌}
use native.Mathlib.Omega.{arith}
use wootpilot.Prelude.Lists.{any, filter, find?}
use wootpilot.Prelude.Text.{codes, str_eq, mem_text}
use wootpilot.Persistence.Rows.{Db}
use wootpilot.Persistence.Queue.{
  row_to_outbound_action, queued_action_due, retryable_action_due, action_due, order_by_created,
  due_actions, in_conversation, claim_queued_outbound_actions, has_newer_customer_public_message,
  next_outbound_action_due_at,
}
use wootpilot.Persistence.DueTime.{has_come, next_outbound_action_due_at-claim}
use wootpilot.Persistence.Claims.{claims_disjoint}
use wootpilot.Persistence.Oldest.{TakesOldest, claim-TakesOldest}
use wootpilot.Persistence.Superseding.{Newer, has_newer_customer_public_message_iff}
use wootpilot.Tests.Fixtures.{decimal_of, question, follow_up}
use wootpilot.Tests.Services.{queue, reply_row, claimed_reply}

next_outbound_action_due_at-claim_example :
    ((claim_queued_outbound_actions queue 1 114 114 5).0 ≡ [])
    ↔ (has_come (next_outbound_action_due_at queue 112 5) 114 ≡ false)
next_outbound_action_due_at-claim_example =
    next_outbound_action_due_at-claim queue 0 112 114 114 5 (omega arith)

abbrev two_replies : Db
two_replies = record queue {
  outbound_actions =
      reply_row ∷ record reply_row { id = codes "a2"; source_message_id = codes "11" } ∷ [];
}

claims_disjoint_example : codes "a1" ≢ codes "a2"
unfolding claim_queued_outbound_actions due_actions order_by_created filter action_due
    queued_action_due row_to_outbound_action mem_text any str_eq retryable_action_due
claims_disjoint_example =
    claims_disjoint two_replies 1 115 115 5 1 116 116 5 claimed_reply
      (record claimed_reply { id = codes "a2"; source_message_id = codes "11" }) (inl refl)
      (inl refl)

claim-TakesOldest_example : TakesOldest two_replies 1 115 5 (claimed_reply ∷ [])
unfolding claim_queued_outbound_actions due_actions order_by_created filter action_due
    queued_action_due row_to_outbound_action retryable_action_due
claim-TakesOldest_example = claim-TakesOldest two_replies 1 115 115 5

abbrev talk : Db
talk = record queue { conversation_messages = question ∷ follow_up ∷ [] }

has_newer_customer_public_message_iff_example :
    (has_newer_customer_public_message decimal_of talk
        (codes "t")
        (codes "2")
        (codes "9")
        (codes "10")
      ≡ true)
    ↔ Newer decimal_of talk (codes "t") (codes "2") (codes "9") (codes "10") question
unfolding find? in_conversation str_eq
has_newer_customer_public_message_iff_example =
    has_newer_customer_public_message_iff decimal_of talk (codes "t") (codes "2") (codes "9")
      (codes "10") question refl
