-- ===== src/Persistence/MessageOrder.antt =====
-- src/wootpilot/persistence/repositories.py: _message_id_is_after, with Python's int() on text. The
-- value of a decimal digit is the Unicode database's, so that it is a parameter.
use Prim.Native.Nat.{ℕ, ◌+◌, ◌*◌}
use mathlib.Core.Bool.{Bool, true, false, ◌&&◌, not}
use mathlib.Core.Option.{Option, none, some}
use mathlib.Core.List.{[], ◌∷◌}
use wootpilot.Prelude.Tests.{ltb, ◌==◌, if◌then◌else◌}
use wootpilot.Prelude.Text.{Text, strip, str_gt}

-- An integer by sign and magnitude; both signs of 0 compare alike.
pub record Signed : Type 0 where
  pub negative : Bool
  pub magnitude : ℕ

unfoldable pub int_gt : Signed → Signed → Bool
int_gt a b =
    if a.negative
    then (if b.negative then ltb a.magnitude b.magnitude else false)
    else if b.negative
    then not (a.magnitude == 0 && b.magnitude == 0)
    else ltb b.magnitude a.magnitude

module _ (decimal : ℕ → Option ℕ) where
  -- Digits with single underscores between them, after at least one digit.
  unfoldable pub digits : ℕ → Text → Option ℕ
  digits n [] = some n
  digits n (c ∷ []) = elim (decimal c) [ none ↦ none | some d ↦ some (n * 10 + d) ]
  digits n (c ∷ e ∷ rest) = elim (decimal c) [
    | some d ↦ digits (n * 10 + d) (e ∷ rest)
    | none ↦
        if c == b'_'
        then elim (decimal e) [ none ↦ none | some d ↦ digits (n * 10 + d) rest ]
        else none
  ]

  unfoldable pub first_digit : Bool → Text → Option Signed
  unfolding digits
  first_digit negative [] = none
  first_digit negative (c ∷ rest) = elim (decimal c) [
    | none ↦ none
    | some d ↦ elim (digits d rest) [
      | none ↦ none
      | some n ↦ some (record { negative = negative; magnitude = n })
    ]
  ]

  unfoldable pub signed : Text → Option Signed
  unfolding first_digit
  signed [] = none
  signed (c ∷ rest) =
      if c == b'-'
      then first_digit true rest
      else if c == b'+'
      then first_digit false rest
      else first_digit false (c ∷ rest)

  -- int(text); `none` is ValueError.
  unfoldable pub parse_int : Text → Option Signed
  unfolding signed
  parse_int text = signed (strip text)

  unfoldable pub message_id_is_after : (candidate source : Text) → Bool
  unfolding parse_int int_gt
  message_id_is_after candidate source = elim (parse_int candidate) [
    | none ↦ str_gt candidate source
    | some a ↦ elim (parse_int source) [ none ↦ str_gt candidate source | some b ↦ int_gt a b ]
  ]
