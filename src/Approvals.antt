-- ===== src/Approvals.antt =====
-- Local approval records: `create_approval`, `consume_approval` and `get_approval` of
-- model/approvals.py.
pub mod Life
pub mod Claimable
use muse_agent_social.Prelude.{
  ℕ, String, Bool, true, false, ◌&&◌, Option, none, some, List, ◌==◌, text_lt, ◌*◌, if◌then◌else◌,
}
use muse_agent_social.Prelude.Table.{find, exists, insert, update}
use muse_agent_social.Time.{add_seconds}
use muse_agent_social.Store.Tables.{ApprovalRow, SubjectType, human_request_subject, poll_subject}

abbrev pub approval_ttl_seconds : ℕ
approval_ttl_seconds = 24 * 3600

-- `ApprovalError` with the code `bad_subject_type`, or the ValueError or OverflowError of a
-- `created_at` whose expiry cannot be computed.
pub data ApprovalFault : Type 0 where
  bad_subject_type value_error : ApprovalFault

pub data Created : Type 0 where
  created : String → List ApprovalRow → Created
  refused : ApprovalFault → Created

-- `subject_type not in ("human_request", "poll")`
abbrev pub subject : String → Option SubjectType
subject text =
    if text == "human_request"
    then some human_request_subject
    else if text == "poll"
    then some poll_subject
    else none

-- `created_at` is canonical UTC text.
unfoldable pub expiry_for : String → Option String → Option String
expiry_for created_at none = add_seconds created_at approval_ttl_seconds
expiry_for created_at (some expires_at) = some expires_at

pub record NewApproval : Type 0 where
  pub relationship_id : String
  pub subject_type : String
  pub subject_id : String
  pub answer : String
  pub approved : Bool
  pub created_at : String
  pub note : Option String
  pub expires_at : Option String

abbrev pub new_approval : String → SubjectType → String → NewApproval → ApprovalRow
new_approval approval_id subject_type expires_at a = record {
  approval_id = approval_id;
  relationship_id = a.relationship_id;
  subject_type = subject_type;
  subject_id = a.subject_id;
  answer = a.answer;
  approved = a.approved;
  created_at = a.created_at;
  expires_at = expires_at;
  consumed_at = none;
  note = a.note;
}

-- `approval_id` is the `uuid4().hex` that the call draws.
unfoldable pub create_approval : String → NewApproval → List ApprovalRow → Created
unfolding expiry_for
create_approval approval_id a rows = elim (subject a.subject_type) [
  | none ↦ refused bad_subject_type
  | some subject_type ↦ elim (expiry_for a.created_at a.expires_at) [
    | none ↦ refused value_error
    | some expires_at ↦
        created approval_id (insert (new_approval approval_id subject_type expires_at a) rows)
  ]
]

-- The optional bindings of `consume_approval`; `subject_type` is compared as the column holds it.
pub record Bindings : Type 0 where
  pub relationship_id : Option String
  pub subject_type : Option String
  pub subject_id : Option String
  pub answer : Option String
  pub approved : Option Bool

abbrev pub subject_text : SubjectType → String
subject_text human_request_subject = "human_request"
subject_text poll_subject = "poll"

-- ` AND column = ?`, where the caller gives a value.
abbrev pub binds : Option String → String → Bool
binds none column = true
binds (some value) column = column == value

abbrev pub same_flag : Bool → Bool → Bool
same_flag true b = b
same_flag false true = false
same_flag false false = true

abbrev pub binds_flag : Option Bool → Bool → Bool
binds_flag none column = true
binds_flag (some value) column = same_flag value column

abbrev pub unconsumed : ApprovalRow → Bool
unconsumed r = elim r.consumed_at [ none ↦ true | some _ ↦ false ]

unfoldable pub is_bound : Bindings → ApprovalRow → Bool
is_bound b r =
    binds b.relationship_id r.relationship_id
    && binds b.subject_type (subject_text r.subject_type)
    && binds b.subject_id r.subject_id
    && binds b.answer r.answer
    && binds_flag b.approved r.approved

-- The WHERE clause of the claim.
unfoldable pub claims : String → String → Bindings → ApprovalRow → Bool
unfolding is_bound
claims approval_id now b r =
    r.approval_id == approval_id && unconsumed r && text_lt now r.expires_at && is_bound b r

abbrev pub consumed_row : String → ApprovalRow → ApprovalRow
consumed_row now r = record r { consumed_at = some now }

-- The UPDATE reaches one row at most, since `approval_id` is the primary key; the result is
-- `rowcount == 1`.
unfoldable pub consume_approval :
    String → String → Bindings → List ApprovalRow → Bool × List ApprovalRow
unfolding claims
consume_approval approval_id now b rows = (
  exists (claims approval_id now b) rows,
  update (claims approval_id now b) (consumed_row now) rows,
)

unfoldable pub get_approval : String → List ApprovalRow → Option ApprovalRow
get_approval approval_id rows = find (λ r. r.approval_id == approval_id) rows
