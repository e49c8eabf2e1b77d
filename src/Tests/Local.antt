-- ===== src/Tests/Local.antt =====
-- Approvals and the delivery policy.
use muse_agent_social.Prelude.{
  ℕ, String, true, false, none, some, List, [], ◌∷◌, ◌≡◌, ◌↔◌, ◌⊎◌, refl, ◌+◌, ◌≤◌,
}
use muse_agent_social.Prelude.Table.{exists}
use muse_agent_social.Store.Tables.{ApprovalRow}
use muse_agent_social.Time.{parse_canonical_utc, add_seconds}
use muse_agent_social.Approvals.{NewApproval, Bindings, consume_approval, get_approval}
use muse_agent_social.Approvals.Life.{
  Call, consuming, creating, calls, consume_approval-once, consume_approval_lem,
}
use muse_agent_social.Approvals.Claimable.{IsKeyed, IsClaimable, HasClaimable}
use muse_agent_social.Policy.Window.{within_accept_window, within_accept_window_iff}
use muse_agent_social.Policy.Expiry.{DeliveryPolicy, ExpiryDecision, apply_expiry, decided}
use muse_agent_social.Tests.{approval}

abbrev rows : List ApprovalRow
rows = approval ∷ record approval { approval_id = "a2" } ∷ []

abbrev bound : Bindings
bound = record {
  relationship_id = some "rel";
  subject_type = some "human_request";
  subject_id = some "h1";
  answer = some "yes";
  approved = some true;
}

abbrev unbound : Bindings
unbound = record {
  relationship_id = none;
  subject_type = none;
  subject_id = none;
  answer = none;
  approved = none;
}

rows-IsKeyed : IsKeyed rows
unfolding exists
rows-IsKeyed = (refl, (refl, tt))

consumed : (consume_approval "a1" "2026-01-01T12:00:00Z" bound rows).0 ≡ true
unfolding consume_approval exists
consumed = refl

abbrev another : NewApproval
another = record {
  relationship_id = "rel";
  subject_type = "poll";
  subject_id = "q1";
  answer = "no";
  approved = false;
  created_at = "2026-01-01T12:00:00Z";
  note = none;
  expires_at = none;
}

abbrev in_between : List Call
in_between =
    creating "a3" another
    ∷ consuming "a2" "2026-01-01T12:00:00Z" unbound
    ∷ consuming "a1" "2026-01-01T12:00:00Z" unbound
    ∷ []

consume_approval-once_example :
    (consume_approval "a1" "2026-01-01T12:00:01Z" unbound
      (calls in_between (consume_approval "a1" "2026-01-01T12:00:00Z" bound rows).1)).0
    ≡ false
consume_approval-once_example =
    consume_approval-once "a1" "2026-01-01T12:00:00Z" "2026-01-01T12:00:01Z" bound unbound
      in_between rows rows-IsKeyed (refl, tt) consumed

consume_approval_lem_example :
    let (accepted, after) = consume_approval "a1" "2026-01-01T12:00:00Z" bound rows in
    (((accepted ≡ true)
        × ((r : ApprovalRow) × (get_approval "a1" rows ≡ some r)
            × IsClaimable "2026-01-01T12:00:00Z" bound r
            × (get_approval "a1" after
                ≡ some (record r { consumed_at = some "2026-01-01T12:00:00Z" }))))
      ⊎ ((accepted ≡ false)
          × ¬ (HasClaimable "a1" "2026-01-01T12:00:00Z" bound rows)
          × (after ≡ rows)))
    × ((◌≡◌ {A = String} "a1" "a2") ⊎ (get_approval "a2" after ≡ get_approval "a2" rows))
consume_approval_lem_example =
    consume_approval_lem "a1" "a2" "2026-01-01T12:00:00Z" bound rows rows-IsKeyed

within_accept_window_iff_example :
    (within_accept_window "2026-01-01T00:04:00Z" "2026-01-01T00:00:00Z" ≡ some true) ↔ (
      (created : ℕ) × (moment : ℕ) × (parse_canonical_utc "2026-01-01T00:04:00Z" ≡ some created)
      × (parse_canonical_utc "2026-01-01T00:00:00Z" ≡ some moment)
      × (created ≤ moment + 300)
      × (moment ≤ created + 604800))
within_accept_window_iff_example =
    within_accept_window_iff "2026-01-01T00:04:00Z" "2026-01-01T00:00:00Z"

abbrev hour : DeliveryPolicy
hour = record {
  mode = "digest";
  version = 2;
  updated_at = none;
  seen_receipts_enabled = false;
  accepted_receipts_enabled = true;
  expiry_handling = "shorten";
  expiry_shorten_after_seconds = some 3600;
}

abbrev shortened : ExpiryDecision
shortened = record {
  suppress = true;
  effective_expires_at = some "2026-01-01T01:00:00Z";
  reason = "expired_shortened_window";
  policy_version = 2;
  retain_envelope = true;
}

run :
    apply_expiry hour
      (some "2026-01-01T00:00:00Z")
      (some "2026-01-02T00:00:00Z")
      "2026-01-01T02:00:00Z"
    ≡ decided shortened
unfolding apply_expiry parse_canonical_utc add_seconds
run = refl
