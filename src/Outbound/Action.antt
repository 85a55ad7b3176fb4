-- ===== src/Outbound/Action.antt =====
-- The effects of the outbound worker: the tables of its session, the calls it has made to Chatwoot,
-- and a counter that every reading of the clock and every wait advances. Each wait (a commit or a
-- call) lets the rest of the system run.
use Prim.Native.Nat.{ℕ, suc}
use mathlib.Core.Bool.{Bool}
use mathlib.Core.Option.{Option}
use mathlib.Core.List.{List, ◌∷◌}
use wootpilot.Prelude.Tests.{if◌then◌else◌}
use wootpilot.Prelude.Text.{Text}
use wootpilot.Domain.Outbound.{Result, ok, err, Failure, Settings}
use wootpilot.Policy.Searchable.{Unicode}
use wootpilot.Persistence.Rows.{Db}
use wootpilot.Outbound.Checks.{ChannelSafetyState}

pub data Call : Type 0 where
  create_message : (conversation_id content : Text) (private : Bool) → Call
  get_conversation_safety : (conversation_id : Text) → Call
  set_conversation_status : (conversation_id status : Text) → Call
  add_conversation_labels : (conversation_id : Text) (labels : List Text) → Call

pub record World : Type 0 where
  pub db : Db
  pub calls : List Call  -- the latest first
  pub ticks : ℕ

-- What surrounds the worker: its settings, the client's answers, which may depend on all calls so
-- far and on the time, the clock, and what the rest of the system does to the tables in a wait.
pub record Surroundings : Type 0 where
  pub settings : Settings
  pub unicode : Unicode
  pub decimal : ℕ → Option ℕ
  pub now : ℕ → ℕ
  pub others : ℕ → Db → Db
  pub message_answer : ℕ → List Call → Result Text
  pub safety_answer : ℕ → List Call → Result ChannelSafetyState
  pub update_answer : ℕ → List Call → Result (Unit {0})

-- A method of the worker: what it wrote before it raised stays written.
abbrev pub Action : Type 0 → Type 0
Action A = World → Result A × World

module _ {A B : Type 0} where
  abbrev pub and_then : Result A → (A → Action B) → Action B
  and_then (ok a) f w = f a w
  and_then (err e) f w = (err e, w)

  infixl 5 ◌>>=◌
  abbrev pub ◌>>=◌ : Action A → (A → Action B) → Action B
  ◌>>=◌ m f w = and_then (m w).0 f (m w).1

infixl 5 ◌>>◌
abbrev pub ◌>>◌ : {B : Type 0} → Action (Unit {0}) → Action B → Action B
m >> k = m >>= λ _. k

abbrev pub pure : {A : Type 0} → A → Action A
pure a w = (ok a, w)

abbrev pub lift : {A : Type 0} → Result A → Action A
lift r w = (r, w)

abbrev pub read_db : {A : Type 0} → (Db → A) → Action A
read_db f w = (ok (f w.db), w)

abbrev pub write_db : (Db → Db) → Action (Unit {0})
write_db f w = (ok tt, record w { db = f w.db })

-- `except ChatwootApiError as exc`: any other exception goes on.
abbrev pub caught : {A : Type 0} → Result A → Result (Result A)
caught (ok a) = ok (ok a)
caught (err (Failure.chatwoot_api_error e)) = ok (err (Failure.chatwoot_api_error e))
caught (err e) = err e

abbrev pub try : {A : Type 0} → Action A → Action (Result A)
try m w = (caught (m w).0, (m w).1)

module _ (env : Surroundings) where
  abbrev pub clock : Action ℕ
  clock w = (ok (env.now w.ticks), record w { ticks = suc w.ticks })

  -- The reading of the clock that is made only where it is needed: otherwise nothing asks for its
  -- value, and no tick passes.
  abbrev pub clock_if : Bool → Action ℕ
  clock_if needed w =
      (ok (env.now w.ticks), record w { ticks = if needed then suc w.ticks else w.ticks })

  abbrev pub after_wait : World → World
  after_wait w = record w { db = env.others w.ticks w.db; ticks = suc w.ticks }

  abbrev pub commit : Action (Unit {0})
  commit w = (ok tt, after_wait w)

  abbrev pub call : {A : Type 0} → Call → (ℕ → List Call → Result A) → Action A
  call c answer w =
      let w' = record w { calls = c ∷ w.calls } in (answer w.ticks (c ∷ w.calls), after_wait w')
