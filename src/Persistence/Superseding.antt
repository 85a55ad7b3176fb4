-- ===== src/Persistence/Superseding.antt =====
-- persistence/repositories.py: when a queued public reply is superseded: has_newer_customer_public_message against a plain
-- account of "newer".
use Prim.Native.Nat.{ℕ, ◌<◌}
use mathlib.Core.Path.{◌≡◌}
use mathlib.Core.Logic.{◌≢◌, ◌↔◌, ◌⊎◌, inl, inr}
use mathlib.Core.Bool.{Bool, true, false, ◌&&◌}
use mathlib.Core.Option.{Option, some}
use native.Mathlib.Omega.{arith}
use wootpilot.Prelude.Tests.{ltb, Bool-cases}
use wootpilot.Prelude.Lists.{any, find?, ◌∈◌, any-exists, any-of_mem}
use wootpilot.Prelude.Text.{Text, str_eq, str_eq_iff}
use wootpilot.Domain.Messages.{NormalizedMessage}
use wootpilot.Persistence.Rows.{Db}
use wootpilot.Persistence.MessageOrder.{message_id_is_after}
use wootpilot.Persistence.Queue.{
  in_conversation, is_customer_turn, is_after_at_same_time, has_newer_customer_public_message,
}

-- `m` comes after `source`: later, or at the same time with another id that is after.
abbrev pub ComesAfter : (decimal : ℕ → Option ℕ) (source m : NormalizedMessage) → Type 0
ComesAfter decimal source m =
    (source.created_at < m.created_at)
    ⊎ ((m.created_at ≡ source.created_at)
        × (m.message_id ≢ source.message_id)
        × (message_id_is_after decimal m.message_id source.message_id ≡ true))

module _ (decimal : ℕ → Option ℕ) (db : Db) (tenant channel conversation id : Text) where
  abbrev same : NormalizedMessage → Bool
  same = in_conversation tenant channel conversation

  abbrev is_source : NormalizedMessage → Bool
  is_source m = same m && str_eq id m.message_id

  -- A public inbound customer message of the conversation that comes after `source`.
  pub record Newer (source : NormalizedMessage) : Type 0 where
    pub message : NormalizedMessage
    pub stored : message ∈ db.conversation_messages
    pub same_conversation : in_conversation tenant channel conversation message ≡ true
    pub customer_turn : is_customer_turn message ≡ true
    pub after : ComesAfter decimal source message

  abbrev later : NormalizedMessage → NormalizedMessage → Bool
  later source m = same m && (is_customer_turn m && ltb source.created_at m.created_at)

  abbrev tied : NormalizedMessage → NormalizedMessage → Bool
  tied source m = same m && is_after_at_same_time decimal source m

  later→Newer :
      (source : NormalizedMessage)
      → any (later source) db.conversation_messages ≡ true
      → Newer source
  later→Newer source h =
      let (m, stored, p) = any-exists (later source) db.conversation_messages h in
      record {
        message = m;
        stored = stored;
        same_conversation = ground arith;
        customer_turn = ground arith;
        after = inl (ground arith);
      }

  tied_parts :
      (source m : NormalizedMessage)
      → tied source m ≡ true
      → (same m ≡ true)
        × (is_customer_turn m ≡ true)
        × (m.created_at ≡ source.created_at)
        × (str_eq m.message_id source.message_id ≡ false)
        × (message_id_is_after decimal m.message_id source.message_id ≡ true)
  unfolding is_after_at_same_time
  tied_parts source m h = ground arith

  tied→Newer :
      (source : NormalizedMessage)
      → any (tied source) db.conversation_messages ≡ true
      → Newer source
  tied→Newer source h =
      let (m, stored, p) = any-exists (tied source) db.conversation_messages h in
      let (here, turn, time, other, after) = tied_parts source m p in
      record {
        message = m;
        stored = stored;
        same_conversation = here;
        customer_turn = turn;
        after = inr (time, λ e. cc (other, (str_eq_iff m.message_id source.message_id).1 e), after);
      }

  tied_of_parts :
      (source m : NormalizedMessage)
      → same m ≡ true
      → is_customer_turn m ≡ true
      → m.created_at ≡ source.created_at
      → str_eq m.message_id source.message_id ≡ false
      → message_id_is_after decimal m.message_id source.message_id ≡ true
      → tied source m ≡ true
  unfolding is_after_at_same_time
  tied_of_parts source m here turn time other after = ground arith

  str_ne : (s t : Text) → s ≢ t → str_eq s t ≡ false
  str_ne s t h = elim (Bool-cases (str_eq s t)) [
    | inl e ↦ absurd (h ((str_eq_iff s t).0 e))
    | inr other ↦ other
  ]

  Newer-tests :
      (source : NormalizedMessage)
      → Newer source
      → (any (later source) db.conversation_messages ≡ true)
        ⊎ (any (tied source) db.conversation_messages ≡ true)
  Newer-tests source n = elim n.after [
    | inl late ↦
        inl (any-of_mem (later source) n.message db.conversation_messages n.stored (ground arith))
    | inr (time, other, after) ↦ inr (
        any-of_mem (tied source) n.message db.conversation_messages n.stored (
          tied_of_parts source n.message n.same_conversation n.customer_turn time
            (str_ne n.message.message_id source.message_id other) after))
  ]

  newer→ :
      (source : NormalizedMessage)
      → find? is_source db.conversation_messages ≡ some source
      → has_newer_customer_public_message decimal db tenant channel conversation id ≡ true
      → Newer source
  unfolding has_newer_customer_public_message
  newer→ source found h = elim (Bool-cases (any (later source) db.conversation_messages)) [
    | inl late ↦ later→Newer source late
    | inr none_late ↦ tied→Newer source (ground arith)
  ]

  →newer :
      (source : NormalizedMessage)
      → find? is_source db.conversation_messages ≡ some source
      → Newer source
      → has_newer_customer_public_message decimal db tenant channel conversation id ≡ true
  unfolding has_newer_customer_public_message
  →newer source found n = ground (arith, Newer-tests source n)

-- With the source message stored, a reply counts as superseded exactly when its conversation holds
-- a public inbound customer message that is later, or of the same time with a later message id.
pub has_newer_customer_public_message_iff :
    (decimal : ℕ → Option ℕ) (db : Db) (tenant channel conversation id : Text)
    (source : NormalizedMessage)
    → find?
        (λ m. in_conversation tenant channel conversation m && str_eq id m.message_id)
        db.conversation_messages
      ≡ some source
    → (has_newer_customer_public_message decimal db tenant channel conversation id ≡ true)
      ↔ Newer decimal db tenant channel conversation id source
has_newer_customer_public_message_iff decimal db tenant channel conversation id source found = (
  newer→ decimal db tenant channel conversation id source found,
  →newer decimal db tenant channel conversation id source found,
)
