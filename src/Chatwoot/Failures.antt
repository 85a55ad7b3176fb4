-- ===== src/Chatwoot/Failures.antt =====
-- integrations/chatwoot.py and application/outbound.py: which failures of create_message the worker
-- tries again.
use Prim.Native.Nat.{ℕ}
use mathlib.Core.Path.{◌≡◌}
use mathlib.Core.Bool.{Bool, false}
use mathlib.Core.Option.{Option}
use mathlib.Core.List.{List, [], ◌∷◌}
use wootpilot.Prelude.Lists.{◌∈◌}
use wootpilot.Http.{Reply, response, failed, broken}
use wootpilot.Prelude.Text.{Text}
use wootpilot.Prelude.Json.{Json}
use wootpilot.Chatwoot.Client.{Chatwoot}

-- The statuses that Chatwoot answers when the same request may succeed later.
abbrev pub transient_statuses : List ℕ
transient_statuses = 408 ∷ 409 ∷ 425 ∷ 429 ∷ 500 ∷ 502 ∷ 503 ∷ 504 ∷ []

-- No response, or an error response with such a status.
abbrev pub Transient : Chatwoot → Reply → Type 0
Transient client (failed class_name) = Unit
Transient client (response status body) =
    (client.is_success status ≡ false) × (status ∈ transient_statuses)
Transient client (broken class_name) = ⊥
