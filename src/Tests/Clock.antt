-- ===== src/Tests/Clock.antt =====
-- Canonical times.
use muse_agent_social.Prelude.{◌≡◌, refl, some, none}
use muse_agent_social.Time.{parse_canonical_utc, add_seconds, sub_seconds}

epoch : parse_canonical_utc "1970-01-01T00:00:01Z" ≡ some 62135596801
unfolding parse_canonical_utc
epoch = refl

no_leap_day : parse_canonical_utc "2023-02-29T00:00:00Z" ≡ none
unfolding parse_canonical_utc
no_leap_day = refl

into_leap_day : add_seconds "2024-02-28T23:59:59Z" 1 ≡ some "2024-02-29T00:00:00Z"
unfolding add_seconds
into_leap_day = refl

week_before : sub_seconds "2024-03-01T00:00:00Z" 604800 ≡ some "2024-02-23T00:00:00Z"
unfolding sub_seconds
week_before = refl

leap_year_end : add_seconds "2000-12-31T23:59:59Z" 0 ≡ some "2000-12-31T23:59:59Z"
unfolding add_seconds
leap_year_end = refl

last_moment : add_seconds "9999-12-31T23:59:59Z" 0 ≡ some "9999-12-31T23:59:59Z"
unfolding add_seconds
last_moment = refl

overflow : add_seconds "9999-12-31T23:59:59Z" 1 ≡ none
unfolding add_seconds
overflow = refl
