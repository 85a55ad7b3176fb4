-- ===== src/Chatwoot/IntegerIds.antt =====
-- integrations/chatwoot.py prints an integer id as text, persistence/repositories.py reads it back to
-- order messages.
use Prim.Native.Nat.{ℕ, zero, suc, ◌+◌, ◌*◌, ◌/◌, ◌%◌, ◌<◌}
use mathlib.Core.Path.{◌≡◌, refl, sym, subst, ap, ◌∙◌}
use mathlib.Core.Logic.{◌↔◌, inl, inr}
use mathlib.Core.Bool.{true, false}
use mathlib.Core.Option.{Option, some}
use mathlib.Core.List.{[], ◌∷◌, ◌++◌, reverse, reverse_aux, reverse-reverse}
use native.Mathlib.Omega.{arith}
use wootpilot.Prelude.Tests.{ltb, ◌==◌, Bool-cases}
use wootpilot.Prelude.Text.{Text, truthy, strip, lstrip, is_space}
use wootpilot.Prelude.Json.{int, decimal_digits, int_text, str_of}
use wootpilot.Persistence.MessageOrder.{
  digits, first_digit, int_gt, message_id_is_after, parse_int, signed,
}
use wootpilot.Chatwoot.Payload.{Python}
use wootpilot.Chatwoot.Closed.{int_text-truthy}

-- The digits 0 to 9 have their values.
abbrev pub ReadsDigits : (ℕ → Option ℕ) → Type 0
ReadsDigits decimal = (d : ℕ) → d < 10 → decimal (d + b'0') ≡ some d

-- A text of ASCII digits.
abbrev IsDecimal : Text → Type 0
IsDecimal [] = Unit
IsDecimal (c ∷ text) = ((d : ℕ) × (d < 10) × (c ≡ d + b'0')) × IsDecimal text

IsDecimal-snoc :
    (text : Text) (d : ℕ) → d < 10 → IsDecimal text → IsDecimal (text ++ (d + b'0') ∷ [])
IsDecimal-snoc [] d small h = ((d, small, refl), tt)
IsDecimal-snoc (c ∷ text) d small h = (h.0, IsDecimal-snoc text d small h.1)

decimal_digits-IsDecimal : (fuel n : ℕ) → IsDecimal (decimal_digits fuel n)
unfolding decimal_digits
decimal_digits-IsDecimal zero n = tt
decimal_digits-IsDecimal (suc fuel) n = elim (Bool-cases (ltb n 10)) [
  | inl digit ↦ rw digit ((n, ground arith, refl), tt)
  | inr more ↦ rw more (
      IsDecimal-snoc (decimal_digits fuel (n / 10)) (n % 10) (omega arith)
        (decimal_digits-IsDecimal fuel (n / 10)))
]

module _ (decimal : ℕ → Option ℕ) (reads : ReadsDigits decimal) where
  digits-step :
      (acc d : ℕ) (text : Text)
      → d < 10
      → digits decimal acc ((d + b'0') ∷ text) ≡ digits decimal (acc * 10 + d) text
  unfolding digits
  digits-step acc d [] small = rw (reads d small, digits) refl
  digits-step acc d (e ∷ text) small = rw (reads d small, digits) refl

  digits-nil : (n : ℕ) → digits decimal n [] ≡ some n
  unfolding digits
  digits-nil n = refl

  digits-snoc :
      (acc v d : ℕ) (text : Text)
      → d < 10
      → IsDecimal text
      → digits decimal acc text ≡ some v
      → digits decimal acc (text ++ (d + b'0') ∷ []) ≡ some (v * 10 + d)
  unfolding digits
  digits-snoc acc v d [] small h e = digits-step acc d [] small ∙ ground arith
  digits-snoc acc v d (c ∷ text) small ((x, below, same), h) e =
      subst (λ (k : ℕ). digits decimal acc (k ∷ text ++ (d + b'0') ∷ []) ≡ some (v * 10 + d))
        (sym same)
        (digits-step acc x (text ++ (d + b'0') ∷ []) below
          ∙ digits-snoc (acc * 10 + x) v d text small h (
              sym (digits-step acc x text below)
              ∙ subst (λ (k : ℕ). digits decimal acc (k ∷ text) ≡ some v) same e))

  -- Enough fuel prints the number, and its digits are read back.
  digits-decimal_digits :
      (fuel n : ℕ) → n < fuel → digits decimal 0 (decimal_digits fuel n) ≡ some n
  unfolding decimal_digits
  digits-decimal_digits zero n h = absurd (omega arith)
  digits-decimal_digits (suc fuel) n h = elim (Bool-cases (ltb n 10)) [
    | inl digit ↦
        rw digit
          (digits-step 0 n [] (ground arith) ∙ digits-nil (0 * 10 + n) ∙ ap some (omega arith))
    | inr more ↦
        let large : 9 < n = ground arith in
        let joined =
          digits-snoc 0 (n / 10) (n % 10) (decimal_digits fuel (n / 10)) (omega arith)
            (decimal_digits-IsDecimal fuel (n / 10))
            (digits-decimal_digits fuel (n / 10) (omega arith)) in
        rw more (joined ∙ ap some (omega arith))
  ]

  first_digit-value :
      (v : ℕ) (text : Text)
      → IsDecimal text
      → truthy text ≡ true
      → digits decimal 0 text ≡ some v
      → first_digit decimal false text ≡ some (record { negative = false; magnitude = v })
  unfolding first_digit
  first_digit-value v [] h present e = absurd (ground arith)
  first_digit-value v (c ∷ text) ((d, below, same), h) present e =
      let known : decimal c ≡ some d = ap decimal same ∙ reads d below in
      let rest : digits decimal d text ≡ some v =
        ap (λ (k : ℕ). digits decimal k text) (omega arith)
        ∙ sym (digits-step 0 d text below)
        ∙ subst (λ (k : ℕ). digits decimal 0 (k ∷ text) ≡ some v) same e in
      ground (arith, known, rest)

  signed-value :
      (v : ℕ) (text : Text)
      → IsDecimal text
      → truthy text ≡ true
      → digits decimal 0 text ≡ some v
      → signed decimal text ≡ some (record { negative = false; magnitude = v })
  unfolding signed
  signed-value v [] h present e = absurd (ground arith)
  signed-value v (c ∷ text) ((d, below, same), h) present e =
      let no_minus : (c == b'-') ≡ false = ground arith in
      let no_plus : (c == b'+') ≡ false = ground arith in
      rw (no_minus, no_plus) (first_digit-value v (c ∷ text) ((d, below, same), h) present e)

lstrip-decimal : (text : Text) → IsDecimal text → lstrip text ≡ text
unfolding lstrip is_space
lstrip-decimal [] h = refl
lstrip-decimal (c ∷ text) ((d, below, same), h) = ground arith

reverse_aux-IsDecimal : (s t : Text) → IsDecimal s → IsDecimal t → IsDecimal (reverse_aux s t)
reverse_aux-IsDecimal [] t h k = k
reverse_aux-IsDecimal (c ∷ s) t h k = reverse_aux-IsDecimal s (c ∷ t) h.1 (h.0, k)

strip-decimal : (text : Text) → IsDecimal text → strip text ≡ text
unfolding strip
strip-decimal text h =
    ap (λ (t : Text). reverse (lstrip (reverse t))) (lstrip-decimal text h)
    ∙ ap reverse (lstrip-decimal (reverse text) (reverse_aux-IsDecimal text [] h tt))
    ∙ reverse-reverse text

-- int(str(n)) is n.
pub parse_int-int_text :
    (decimal : ℕ → Option ℕ) (n : ℕ)
    → ReadsDigits decimal
    → parse_int decimal (int_text false n) ≡ some (record { negative = false; magnitude = n })
unfolding parse_int int_text
parse_int-int_text decimal n reads =
    let printed = decimal_digits (suc n) n in
    let is_decimal = decimal_digits-IsDecimal (suc n) n in
    ap (signed decimal) (strip-decimal printed is_decimal)
    ∙ signed-value decimal reads n printed is_decimal (int_text-truthy n)
        (digits-decimal_digits decimal reads (suc n) n (omega arith))

-- Messages that Chatwoot numbers keep the order of their numbers: what is stored of two integer ids
-- compares as the integers do, not as texts, so that 10 comes after 9.
pub message_id_is_after-integers :
    (py : Python) (decimal : ℕ → Option ℕ) (candidate source : ℕ)
    → ReadsDigits decimal
    → (message_id_is_after decimal
          (str_of py.repr (int false candidate))
          (str_of py.repr (int false source))
        ≡ true)
      ↔ (source < candidate)
unfolding message_id_is_after str_of int_gt
message_id_is_after-integers py decimal candidate source reads =
    ground
      (arith, parse_int-int_text decimal candidate reads, parse_int-int_text decimal source reads)
