-- ===== src/Tests/RateLimit.antt =====
-- Runs of the rate limit, and its theorems at concrete requests.
use incident.Prelude.{
  ◌≤◌, true, false, some, [], ◌∷◌, ◌≡◌, refl, codes, length, select, text_eq, arith,
}
use incident.RateLimit.{
  admit, assign_key, answer, limited, dispatch, HttpRequest, History, is_recent, key_of, keep_slash,
  rate_limit, rstrip_slash,
}
use incident.RateLimit.Window.{serve, logged, serve-le, InOrder}
use incident.RateLimit.Keys.{Served, dispatch-Served}

abbrev login : HttpRequest
login = record {
  path = codes "/api/auth/login/";
  is_post = true;
  client_host = some (codes "10.0.0.1");
}

abbrev empty : History
empty key = []

limits : Unit {0}
unfolding serve logged admit assign_key answer limited dispatch keep_slash rate_limit rstrip_slash
    select text_eq key_of
limits = tt

dispatch-Served_example : Served login 5 empty (dispatch false login 5 empty)
dispatch-Served_example = dispatch-Served login 5 empty

-- Three requests in the window of the first, of which two get through, and one after it.
third_refused : (serve (2, 60) (10 ∷ 20 ∷ 30 ∷ 75 ∷ []) ([], [])).1 ≡ 10 ∷ 20 ∷ 75 ∷ []
unfolding limits
third_refused = refl

in_order : InOrder 0 (10 ∷ 20 ∷ 30 ∷ 75 ∷ [])
in_order = (omega arith, (omega arith, (omega arith, (omega arith, tt))))

serve-le_example :
    length (select (is_recent 60 75) (serve (2, 60) (10 ∷ 20 ∷ 30 ∷ 75 ∷ []) ([], [])).1) ≤ 2
serve-le_example = serve-le 2 60 (10 ∷ 20 ∷ 30 ∷ 75 ∷ []) 75 in_order (omega arith)
