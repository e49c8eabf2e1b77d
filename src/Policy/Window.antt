-- ===== src/Policy/Window.antt =====
-- `within_accept_window`.
use muse_agent_social.Prelude.{
  ℕ, ◌+◌, ◌*◌, ◌-◌, ◌≤◌, String, Bool, true, Option, none, some, ◌≡◌, refl, ap, ◌↔◌, ltb, leb,
  arith, if◌then◌else◌,
}
use muse_agent_social.Time.{parse_canonical_utc, ◌>>=◌}

abbrev accept_window_days : ℕ
accept_window_days = 7

abbrev pub future_tolerance_seconds : ℕ
future_tolerance_seconds = 300

-- `age = (moment - created).total_seconds()` is below 0 where the event is from the future.
abbrev in_window : ℕ → ℕ → Bool
in_window created moment =
    if ltb moment created
    then leb (created - moment) future_tolerance_seconds
    else leb (moment - created) (accept_window_days * 86400)

-- `none` is the ValueError of a time that is not canonical.
unfoldable pub within_accept_window : String → String → Option Bool
unfolding parse_canonical_utc
within_accept_window created_at now = do
  created ← parse_canonical_utc created_at
  moment ← parse_canonical_utc now
  some (in_window created moment)

in_window_iff : (c m : ℕ) → (in_window c m ≡ true) ↔ ((c ≤ m + 300) × (m ≤ c + 604800))
in_window_iff c m = ground arith

some_inj : (a b : Bool) → some a ≡ some b → a ≡ b
some_inj a b h = ground arith

decided_iff :
    (c m : Option ℕ)
    → ((do a ← c; b ← m; some (in_window a b)) ≡ some true)
      ↔ ((x : ℕ) × (y : ℕ) × (c ≡ some x) × (m ≡ some y) × (x ≤ y + 300) × (y ≤ x + 604800))
decided_iff none m = ground arith
decided_iff (some c) none = ground arith
decided_iff (some c) (some m) = (
  λ h.
      let w = (in_window_iff c m).0 (some_inj (in_window c m) true h) in
      (c, m, refl, refl, w.0, w.1),
  λ (x, y, ex, ey, early, late). ap some ((in_window_iff c m).1 (ground arith, ground arith)),
)

-- An event is accepted exactly if both times are canonical and its own is at most five minutes
-- after now and at most seven days before.
pub within_accept_window_iff :
    (created_at now : String)
    → (within_accept_window created_at now ≡ some true) ↔ (
        (created : ℕ) × (moment : ℕ) × (parse_canonical_utc created_at ≡ some created)
        × (parse_canonical_utc now ≡ some moment)
        × (created ≤ moment + 300)
        × (moment ≤ created + 604800))
unfolding within_accept_window
within_accept_window_iff created_at now =
    decided_iff (parse_canonical_utc created_at) (parse_canonical_utc now)
