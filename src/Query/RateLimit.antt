-- ===== src/Query/RateLimit.antt =====
-- server/query/protection.ts: the limit of requests in a sliding minute, for each principal and tier.
-- `t > now - window` is written `now < t + window`, which is the same below 0.
use Prim.Native.String
use catworld.Common.{
  ℕ, ◌+◌, ◌-◌, String, Bool, List, [], ◌∷◌, ◌++◌, if◌then◌else◌, leb, ltb, ◌==◌, keep, length,
  lookup, insert, get_or,
}
use catworld.Query.ResultCache.{ceil_div}

abbrev pub rate_window_ms : ℕ
rate_window_ms = 60000

pub data RateLimitTier : Type 0 where
  query upload default : RateLimitTier

unfoldable pub limit_of : RateLimitTier → ℕ
limit_of query = 60
limit_of upload = 60
limit_of default = 2400

tier_name : RateLimitTier → String
tier_name query = "query"
tier_name upload = "upload"
tier_name default = "default"

-- `${tier}:${principal}`.
unfoldable pub window_key : String → RateLimitTier → String
unfolding tier_name
window_key principal tier = String.◌++◌ (tier_name tier) (String.◌++◌ ":" principal)

abbrev pub in_window : ℕ → ℕ → Bool
in_window now t = ltb now (t + rate_window_ms)

abbrev pub recent : ℕ → List ℕ → List ℕ
recent now = keep (in_window now)

pub data Verdict : Type 0 where
  passes : Verdict
  limited : (retry_after_seconds : ℕ) → Verdict

abbrev pub first_or_zero : List ℕ → ℕ
first_or_zero [] = 0
first_or_zero (t ∷ ts) = t

-- The times of one window, brought up to date, and the verdict on a request.
unfoldable pub check_window : ℕ → ℕ → List ℕ → Verdict × List ℕ
check_window limit now times =
    let live = recent now times in
    if leb limit (length live)
    then (limited (ceil_div (first_or_zero live + rate_window_ms - now) 1000), live)
    else (passes, live ++ now ∷ [])

unfoldable pub check_rate_limit :
    ℕ → String → RateLimitTier → List (String × List ℕ) → Verdict × List (String × List ℕ)
unfolding check_window
check_rate_limit now principal tier windows =
    let key = window_key principal tier in
    let (verdict, times) = check_window (limit_of tier) now (get_or (lookup key windows) []) in
    (verdict, insert key times windows)

-- The cleaning every five minutes.
clean_windows : ℕ → List (String × List ℕ) → List (String × List ℕ)
clean_windows now [] = []
clean_windows now ((key, times) ∷ m) =
    let rest = clean_windows now m in
    if length (recent now times) == 0 then rest else (key, recent now times) ∷ rest

-- The limit, what is used of it and what is left.
unfoldable pub get_rate_limit_status :
    ℕ → String → RateLimitTier → List (String × List ℕ) → ℕ × ℕ × ℕ
get_rate_limit_status now principal tier windows =
    let used = length (recent now (get_or (lookup (window_key principal tier) windows) [])) in
    (limit_of tier, used, limit_of tier - used)
