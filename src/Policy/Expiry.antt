-- ===== src/Policy/Expiry.antt =====
-- `apply_expiry`, on the policy that `get_policy` returns.
pub mod Bounds
use muse_agent_social.Prelude.{
  ℕ, zero, ◌≤◌, String, Bool, true, false, Option, none, some, List, [], ◌∷◌, ◌++◌, ◌≡◌, ◌==◌, ltb,
  text_lt, present, if◌then◌else◌, arith, Option-cases, Bool-cases, inl, inr,
}
use muse_agent_social.Time.{parse_canonical_utc, add_seconds}

-- `expiry_handling` is whatever text the policy document holds.
pub record DeliveryPolicy : Type 0 where
  pub mode : String
  pub version : ℕ
  pub updated_at : Option String
  pub seen_receipts_enabled : Bool
  pub accepted_receipts_enabled : Bool
  pub expiry_handling : String
  pub expiry_shorten_after_seconds : Option ℕ

pub record ExpiryDecision : Type 0 where
  pub suppress : Bool
  pub effective_expires_at : Option String
  pub reason : String
  pub policy_version : ℕ
  pub retain_envelope : Bool

-- `PolicyError("invalid_timestamp")`, or an exception of the computation of the window's end.
pub data Decision : Type 0 where
  decided : ExpiryDecision → Decision
  invalid_timestamp overflow : Decision

abbrev decide : DeliveryPolicy → Bool → Option String → String → Decision
decide policy suppress effective reason = decided (record {
  suppress = suppress;
  effective_expires_at = effective;
  reason = reason;
  policy_version = policy.version;
  retain_envelope = true;
})

-- The sender's request, if any, where it is canonical; the outer `none` is the ValueError.
abbrev sender_candidate : Option String → Option (List String)
sender_candidate none = some []
sender_candidate (some text) = elim (parse_canonical_utc text) [
  | none ↦ none
  | some _ ↦ some (text ∷ [])
]

abbrev window_seconds : Option ℕ → ℕ
window_seconds none = 0
window_seconds (some n) = n

-- The end of the receiver's window; the outer `none` is the OverflowError.
abbrev window_candidate : DeliveryPolicy → String → Option (List String)
window_candidate policy created_at =
    if policy.expiry_handling == "shorten"
    then elim (add_seconds created_at (window_seconds policy.expiry_shorten_after_seconds)) [
      | none ↦ none
      | some text ↦ some (text ∷ [])
    ]
    else some []

-- `min` of a list that starts with `text`: the first of the least.
unfoldable pub least : String → List String → String
least text [] = text
least text (x ∷ xs) = if text_lt x text then least x xs else least text xs

abbrev expired_reason : DeliveryPolicy → String
expired_reason policy =
    if policy.expiry_handling == "honor"
    then "expired_sender_request_honored"
    else "expired_shortened_window"

abbrev compare_expiry : DeliveryPolicy → String → ℕ → Decision
compare_expiry policy effective now = elim (parse_canonical_utc effective) [
  | none ↦ overflow
  | some at ↦
      if ltb now at
      then decide policy false (some effective) "not_yet_expired"
      else decide policy true (some effective) (expired_reason policy)
]

abbrev judge : DeliveryPolicy → List String → ℕ → Decision
judge policy [] now = decide policy false none "no_effective_expiry"
judge policy (c ∷ cs) now = compare_expiry policy (least c cs) now

weigh : DeliveryPolicy → String → Option String → ℕ → Decision
unfolding least
weigh policy created_at expires_at now =
    if policy.expiry_handling == "ignore"
    then decide policy false none "expiry_ignored_by_receiver_policy"
    else elim (sender_candidate (present expires_at)) [
      | none ↦ invalid_timestamp
      | some asked ↦ elim (window_candidate policy created_at) [
        | none ↦ overflow
        | some window ↦ judge policy (asked ++ window) now
      ]
    ]

-- `created_at` and `expires_at` are the event's fields, or None.
unfoldable pub apply_expiry : DeliveryPolicy → Option String → Option String → String → Decision
unfolding weigh
apply_expiry policy none expires_at now = invalid_timestamp
apply_expiry policy (some created_at) expires_at now = elim (parse_canonical_utc created_at) [
  | none ↦ invalid_timestamp
  | some _ ↦ elim (parse_canonical_utc now) [
    | none ↦ invalid_timestamp
    | some moment ↦ weigh policy created_at expires_at moment
  ]
]
