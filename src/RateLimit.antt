-- ===== src/RateLimit.antt =====
-- core/middleware.py, RateLimitMiddleware: a sliding window of requests for each client and path. Times
-- are counted in whole units of the clock, and `window` in the same units.
pub mod Window
pub mod Keys
use incident.Prelude.{
  ℕ, ◌-◌, ◌*◌, Bool, true, false, ◌&&◌, ◌||◌, not, Option, none, some, List, [], ◌∷◌, ◌++◌, ltb,
  leb, ◌==◌, if◌then◌else◌, select, length, get_or, Text, codes, text_eq,
}

-- `defaultdict(list)`.
abbrev pub History : Type 0
History = Text → List ℕ

pub record HttpRequest : Type 0 where
  pub path : Text
  pub is_post : Bool
  pub client_host : Option Text

pub data Response : Type 0 where
  passed : Response
  too_many : ℕ → Response

-- One more character of `rstrip("/")`: a slash with nothing after it goes.
unfoldable pub keep_slash : ℕ → Text → Text
keep_slash c [] = if c == 47 then [] else c ∷ []
keep_slash c (d ∷ t) = c ∷ d ∷ t

unfoldable pub rstrip_slash : Text → Text
unfolding keep_slash
rstrip_slash [] = []
rstrip_slash (c ∷ t) = keep_slash c (rstrip_slash t)

-- The requests allowed in a window of sixty seconds.
unfoldable pub rate_limit : Text → Option (ℕ × ℕ)
rate_limit path =
    if text_eq path (codes "/api/auth/login")
    then some (20, 60)
    else if text_eq path (codes "/api/admin/integrations/servicenow/test-connection")
    then some (15, 60)
    else if text_eq path (codes "/api/admin/automation/mode")
    then some (10, 60)
    else if text_eq path (codes "/api/integrations/servicenow/incidents")
    then some (150, 60)
    else none

abbrev pub is_recent : ℕ → ℕ → ℕ → Bool
is_recent window now ts = ltb (now - ts) window

-- What the lock guards: whether the request goes on, and the times kept for its key.
unfoldable pub admit : ℕ × ℕ → ℕ → List ℕ → Bool × List ℕ
admit (max_requests, window) now history =
    let timestamps = select (is_recent window now) history in
    if leb max_requests (length timestamps)
    then (false, history)
    else (true, timestamps ++ now ∷ [])

unfoldable pub key_of : HttpRequest → Text
key_of r = get_or r.client_host (codes "unknown") ++ codes ":" ++ rstrip_slash r.path

unfoldable pub assign_key : Text → List ℕ → History → History
assign_key key times history other = if text_eq key other then times else history other

unfoldable pub answer : ℕ × ℕ → Text → History → Bool × List ℕ → Response × History
answer limit key history (true, times) = (passed, assign_key key times history)
answer limit key history (false, times) = (too_many limit.1, history)

unfoldable pub limited : Option (ℕ × ℕ) → HttpRequest → ℕ → History → Response × History
limited none r now history = (passed, history)
limited (some limit) r now history =
    if r.is_post
    then answer limit (key_of r) history (admit limit now (history (key_of r)))
    else (passed, history)

unfoldable pub dispatch : Bool → HttpRequest → ℕ → History → Response × History
dispatch testing r now history =
    if testing then (passed, history) else limited (rate_limit (rstrip_slash r.path)) r now history
