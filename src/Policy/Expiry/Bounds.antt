-- ===== src/Policy/Expiry/Bounds.antt =====
-- The decisions of `apply_expiry` that hide an event.
use muse_agent_social.Prelude.{
  ℕ, ◌≤◌, String, true, false, Option, some, ◌≡◌, ◌⊎◌, ◌==◌, text_lt, present,
}
use muse_agent_social.Time.{parse_canonical_utc}
use muse_agent_social.Policy.Expiry.{DeliveryPolicy, ExpiryDecision}

-- What a decision to hide says: the policy does not ignore expiry, the effective expiry has come,
-- and it is the sender's or earlier where the sender asked for one.
abbrev pub Hidden : DeliveryPolicy → Option String → ℕ → ExpiryDecision → Type 0
Hidden policy expires_at now d =
    ((policy.expiry_handling == "ignore") ≡ false)
    × ((e : String) × (at : ℕ) × (d.effective_expires_at ≡ some e)
        × (parse_canonical_utc e ≡ some at)
        × (at ≤ now)
        × ((s : String) → present expires_at ≡ some s → (e ≡ s) ⊎ (text_lt e s ≡ true)))
