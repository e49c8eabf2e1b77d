-- ===== src/Projections/Mutations.antt =====
-- The mutations that the handlers report (`_mutation`). A key that the source joins with `:` or `#`
-- is the list of its parts.
use muse_agent_social.Prelude.{ℕ, String, Bool, List, [], ◌∷◌}

pub data Op : Type 0 where
  noop inserted updated deleted pending_op quarantined : Op

pub data TableName : Type 0 where
  messages message_revisions attachments reactions receipts polls poll_responses tasks : TableName
  human_requests deliveries security_key_events thread_state pending_refs quarantine : TableName
  sequence_gaps : TableName

pub data Value : Type 0 where
  text : String → Value
  flag : Bool → Value
  number : ℕ → Value

pub record Mutation : Type 0 where
  pub op : Op
  pub table : TableName
  pub key : List Value
  pub info : List (String × Value)

abbrev pub mutation : Op → TableName → List Value → List (String × Value) → Mutation
mutation op table key info = record { op = op; table = table; key = key; info = info }

-- The report of a handler that changed nothing.
abbrev pub unchanged : TableName → String → String → List Mutation
unchanged table key reason = mutation noop table (text key ∷ []) (("reason", text reason) ∷ []) ∷ []
