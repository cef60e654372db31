-- ===== src/Common/Time.antt =====
-- common/src/time.rs. The real clock is an argument, in milliseconds. A release build: `+` on a `u64`
-- wraps around.
use verse_entrance_server.Base.{
  ℕ, ◌+◌, ◌/◌, ◌%◌, ◌^◌, ◌≤◌, ◌≡◌, ◌↔◌, Bool, true, arith, leb, ◌==◌, if◌then◌else◌, usize_max,
}

unfoldable pub is_expired : ℕ → ℕ → ℕ → Bool
is_expired now_msec last_modified expire_msec =
    leb ((last_modified + expire_msec) % 2 ^ 64) now_msec

-- The thread's `MOCK_TIME`; 0 stands for no mock.
unfoldable pub set_mock_now : ℕ → ℕ → ℕ
set_mock_now mock msec = msec

unfoldable pub clear_mock_now : ℕ → ℕ
clear_mock_now mock = 0

unfoldable pub get_now_msec : ℕ → ℕ → ℕ
get_now_msec clock mock = if mock == 0 then clock else mock

unfoldable pub get_now_sec : ℕ → ℕ → ℕ
unfolding get_now_msec
get_now_sec clock mock = get_now_msec clock mock / 1000

-- If the sum of a time and a term does not exceed a `u64`, what was modified then is expired exactly
-- from that sum on.
pub is_expired_iff :
    (now last_modified expire : ℕ)
    → last_modified + expire ≤ usize_max
    → (is_expired now last_modified expire ≡ true) ↔ (last_modified + expire ≤ now)
unfolding is_expired
is_expired_iff now last_modified expire h = (λ e. ground arith, λ e. ground arith)
