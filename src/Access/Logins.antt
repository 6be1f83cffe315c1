-- ===== src/Access/Logins.antt =====
-- src/lib/auth.ts, lines 113 to 138: the limit on failed logins over several failures.
use wireguard_panel.Base.{
  ℕ, ◌+◌, ◌≤◌, ◌<◌, ◌≡◌, refl, true, false, List, [], ◌∷◌, none, some, arith, length,
}
use wireguard_panel.Access.{Attempts, window, record_login_failure, is_blocked}

-- The row after failures of one identity, one after the other.
unfoldable pub failures : List ℕ → Attempts → Attempts
failures [] a = a
failures (now ∷ times) a = failures times (record_login_failure now (some a))

-- All times lie in the window from `first` on.
abbrev pub InWindow : ℕ → List ℕ → Type 0
InWindow first [] = Unit {0}
InWindow first (now ∷ times) = (now ≤ first + window) × InWindow first times

counted_on :
    (first now : ℕ) (a : Attempts)
    → now ≤ first + window
    → a.window_started_at ≡ first
    → ((record_login_failure now (some a)).attempt_count ≡ a.attempt_count + 1)
      × ((record_login_failure now (some a)).window_started_at ≡ first)
unfolding record_login_failure
counted_on first now a h e = (ground arith, ground arith)

failures_counted :
    (first : ℕ) (times : List ℕ) (a : Attempts)
    → InWindow first times
    → a.window_started_at ≡ first
    → ((failures times a).attempt_count ≡ a.attempt_count + length times)
      × ((failures times a).window_started_at ≡ first)
unfolding failures
failures_counted first [] a h e = (omega arith, e)
failures_counted first (now ∷ times) a (h, k) e =
    let (counted, started) = counted_on first now a h e in
    let (all, same) = failures_counted first times (record_login_failure now (some a)) k started in
    (omega (arith, all, counted), same)

-- The first failure of an identity, at least three more, and one more at `last`, all within the
-- fifteen minutes from the first on, block it: until fifteen minutes after `last` every check
-- finds it blocked.
pub record_login_failure-is_blocked :
    (first : ℕ) (times : List ℕ) (last now : ℕ)
    → InWindow first times
    → last ≤ first + window
    → 3 ≤ length times
    → now < last + window
    → is_blocked now
        (some (record_login_failure last (some (failures times (record_login_failure first none)))))
      ≡ true
unfolding record_login_failure is_blocked
record_login_failure-is_blocked first times last now h k three before =
    let (counted, started) =
      failures_counted first times (record_login_failure first none) h refl in
    ground (arith, counted, started)

few :
    (times : List ℕ) (a : Attempts)
    → a.blocked_until ≡ none
    → a.attempt_count + length times ≤ 4
    → 1 ≤ a.attempt_count
    → (failures times a).blocked_until ≡ none
unfolding failures record_login_failure
few [] a e h p = e
few (now ∷ times) a e h p =
    few times (record_login_failure now (some a)) (ground arith) (ground arith) (ground arith)

-- Up to four failures of an identity never block it, whenever they happen.
pub failures-is_blocked :
    (first : ℕ) (times : List ℕ) (now : ℕ)
    → length times ≤ 3
    → is_blocked now (some (failures times (record_login_failure first none))) ≡ false
unfolding is_blocked record_login_failure
failures-is_blocked first times now h =
    rw (few times (record_login_failure first none) refl (omega arith) (omega arith)) refl
