-- ===== src/Gateway/Routes/Observe.antt =====
-- What observe of services/gateway/httpx.go counts, and what requests without a token leave as it was.
use mathlib.Core.List.{append_assoc}
use wallet_ledger.Base.{
  ℕ, String, Bool, true, false, not, ◌&&◌, ◌||◌, if◌then◌else◌, str_eq, arith, Option, none, some,
  ◌≡◌, refl, sym, ap, ap₂, subst, ◌∙◌, inl, inr, List, [], ◌∷◌, ◌++◌, All, In,
}
use wallet_ledger.Gateway.Http.{Response}
use wallet_ledger.Gateway.Api.{Handler}
use wallet_ledger.Gateway.Api.Guards.{Unauthorized, require_auth_lem}
use wallet_ledger.Gateway.RateLimit.{Verdict, pass, limited, limit}
use wallet_ledger.Gateway.Client.{Wire}
use wallet_ledger.Gateway.Tokens.{seconds, verify}
use wallet_ledger.Gateway.Routes.{
  Libraries, Config, Request, Route, register, login, my_wallet, deposits, transfers,
  transfer_by_id, unmatched, Gateway, Observed, label, on_accounts, on_wire, judged, limit_by,
  auth_limited, user_limited, serve_route, serve, serve_all, route_of, is_get,
}
use wallet_ledger.Gateway.Routes.PayOnce.{Bears}

-- A handler leaves the counters of requests alone.
abbrev Silent : Handler Gateway → Type 0
Silent f = (g : Gateway) → (f g).1.http_requests ≡ g.http_requests

judged-Silent :
    (bucket : String) (v : Verdict) (f : Handler Gateway) → Silent f → Silent (judged bucket v f)
unfolding judged
judged-Silent bucket (pass limits) f h g = h g
judged-Silent bucket (limited r) f h g = refl

limit_by-Silent :
    (bucket : String) (n : ℕ) (who : String) (r : Request) (f : Handler Gateway)
    → Silent f
    → Silent (limit_by bucket n who r f)
unfolding limit_by
limit_by-Silent bucket n who r f h g =
    let (v, redis) = limit bucket n who r.redis_link (seconds r.now) g.redis in
    judged-Silent bucket v f h (record g { redis = redis })

-- The patterns of main, in no special order: a method, the segments of a path, of which one that is not
-- given stands for any segment, and the text of the pattern.
pub record Pattern : Type 0 where
  pub method : String
  pub segments : List (Option String)
  pub text : String

abbrev pub patterns : List Pattern
patterns =
    record {
      method = "POST";
      segments = some "auth" ∷ some "register" ∷ [];
      text = "POST /auth/register";
    }
    ∷ record {
      method = "POST";
      segments = some "auth" ∷ some "login" ∷ [];
      text = "POST /auth/login";
    }
    ∷ record {
      method = "GET";
      segments = some "wallets" ∷ some "me" ∷ [];
      text = "GET /wallets/me";
    }
    ∷ record {
      method = "POST";
      segments = some "wallets" ∷ some "me" ∷ some "deposits" ∷ [];
      text = "POST /wallets/me/deposits";
    }
    ∷ record { method = "POST"; segments = some "transfers" ∷ []; text = "POST /transfers" }
    ∷ record {
      method = "GET";
      segments = some "transfers" ∷ none ∷ [];
      text = "GET /transfers/{id}";
    }
    ∷ []

-- HEAD counts as GET.
abbrev pub takes_method : String → String → Bool
takes_method pattern method = str_eq method pattern || str_eq pattern "GET" && str_eq method "HEAD"

abbrev pub takes_segment : Option String → String → Bool
takes_segment none s = not (str_eq s "")
takes_segment (some t) s = str_eq s t

abbrev pub takes_path : List (Option String) → List String → Bool
takes_path [] [] = true
takes_path [] (s ∷ ss) = false
takes_path (o ∷ os) [] = false
takes_path (o ∷ os) (s ∷ ss) = takes_segment o s && takes_path os ss

-- The first pattern that takes the request.
abbrev pub text_in : List Pattern → String → List String → String
text_in [] method path = "unmatched"
text_in (p ∷ ps) method path =
    if takes_method p.method method && takes_path p.segments path
    then p.text
    else text_in ps method path

label-text_in :
    (m : String) (path : List String) → label (route_of m path) ≡ text_in patterns m path
unfolding label route_of is_get
label-text_in m [] = ground arith
label-text_in m (a ∷ []) = ground arith
label-text_in m (a ∷ b ∷ []) = ground arith
label-text_in m (a ∷ b ∷ c ∷ []) = ground arith
label-text_in m (a ∷ b ∷ c ∷ d ∷ e) = ground arith

module _ (lib : Libraries) (c : Config) where
  user_limited-Silent :
      (r : Request) (f : String → Handler Wire) → Silent (user_limited lib c r (λ u. on_wire (f u)))
  unfolding user_limited on_wire
  user_limited-Silent r f g =
      let next = λ (u : String). limit_by "user" c.user_limit u r (on_wire (f u)) in
      elim (require_auth_lem (verify lib.jwt c.tokens r.now) r.authorization next g) [
        | inl (_, same) ↦ ap (λ (x : Gateway). x.http_requests) same
        | inr (text, u, a, b, v, e) ↦
            ap (λ (x : Response × Gateway). x.1.http_requests) e
            ∙ limit_by-Silent "user" c.user_limit u r (on_wire (f u)) (λ h. refl) g
      ]

  serve_route-Silent : (route : Route) (r : Request) → Silent (serve_route lib c route r)
  unfolding serve_route auth_limited on_accounts
  serve_route-Silent register r = limit_by-Silent _ _ _ r _ (λ g. refl)
  serve_route-Silent login r = limit_by-Silent _ _ _ r _ (λ g. refl)
  serve_route-Silent my_wallet r = user_limited-Silent r _
  serve_route-Silent deposits r = user_limited-Silent r _
  serve_route-Silent transfers r = user_limited-Silent r _
  serve_route-Silent (transfer_by_id id) r = user_limited-Silent r _
  serve_route-Silent unmatched r = λ g. refl

  -- The entry of a request with its answer.
  abbrev pub entry : Request → Response → Observed
  entry r a = record {
    method = r.method;
    route = label (route_of r.method r.path);
    status = a.status;
  }

  serve-http_requests :
      (r : Request) (g : Gateway)
      → let (a, x) = serve lib c r g in x.http_requests ≡ entry r a ∷ g.http_requests
  unfolding serve
  serve-http_requests r g =
      let route = route_of r.method r.path in
      ap (λ (l : List Observed). entry r (serve_route lib c route r g).0 ∷ l)
        (serve_route-Silent route r g)

  -- The responses to requests one after the other, the latest first.
  unfoldable pub responses : List Request → Gateway → List (Request × Response)
  responses [] g = []
  responses (r ∷ rs) g = let (a, x) = serve lib c r g in responses rs x ++ ((r, a) ∷ [])

  abbrev pub labels : List String
  labels =
      "POST /auth/register" ∷ "POST /auth/login" ∷ "GET /wallets/me" ∷ "POST /wallets/me/deposits"
      ∷ "POST /transfers" ∷ "GET /transfers/{id}" ∷ "unmatched" ∷ []

  label-labels : (route : Route) → In (label route) labels
  unfolding label
  label-labels register = inl refl
  label-labels login = inr (inl refl)
  label-labels my_wallet = inr (inr (inl refl))
  label-labels deposits = inr (inr (inr (inl refl)))
  label-labels transfers = inr (inr (inr (inr (inl refl))))
  label-labels (transfer_by_id id) = inr (inr (inr (inr (inr (inl refl)))))
  label-labels unmatched = inr (inr (inr (inr (inr (inr (inl refl))))))

  -- The entries of some requests with their answers.
  abbrev pub entries : List (Request × Response) → List Observed
  entries [] = []
  entries ((r, a) ∷ l) = entry r a ∷ entries l

  entries-append : (l m : List (Request × Response)) → entries (l ++ m) ≡ entries l ++ entries m
  entries-append [] m = refl
  entries-append ((r, a) ∷ l) m = ap (λ e. entry r a ∷ e) (entries-append l m)

  entries-labels : (l : List (Request × Response)) → All (λ o. In o.route labels) (entries l)
  entries-labels [] = tt
  entries-labels ((r, a) ∷ l) = (label-labels (route_of r.method r.path), entries-labels l)

  counted :
      (rs : List Request) (g : Gateway)
      → (serve_all lib c rs g).http_requests ≡ entries (responses rs g) ++ g.http_requests
  unfolding serve_all responses
  counted [] g = refl
  counted (r ∷ rs) g =
      let (a, x) = serve lib c r g in
      let l = responses rs x in
      counted rs x
      ∙ ap (λ e. entries l ++ e) (serve-http_requests r g)
      ∙ sym (append_assoc (entries l) (entry r a ∷ []) g.http_requests)
      ∙ ap (λ e. e ++ g.http_requests) (sym (entries-append l ((r, a) ∷ [])))

  -- What some requests with their answers count as: each under its method, the text of the first pattern
  -- that takes it, and the status of its response.
  abbrev pub counts : List (Request × Response) → List Observed
  counts [] = []
  counts ((r, a) ∷ l) =
      record { method = r.method; route = text_in patterns r.method r.path; status = a.status }
      ∷ counts l

  entries-counts : (l : List (Request × Response)) → entries l ≡ counts l
  entries-counts [] = refl
  entries-counts ((r, a) ∷ l) =
      ap₂ ◌∷◌
        (ap (λ t. record { method = r.method; route = t; status = a.status })
          (label-text_in r.method r.path))
        (entries-counts l)

  -- http_requests_total counts each request once, the latest first, under its method, the text of the
  -- first pattern of the server that takes the request, and the status of its response; where none takes it,
  -- under one text for all, so that the labels are seven, whatever paths the requests have.
  pub serve_all-http_requests :
      (rs : List Request) (g : Gateway)
      → ((serve_all lib c rs g).http_requests ≡ counts (responses rs g) ++ g.http_requests)
        × All (λ o. In o.route labels) (counts (responses rs g))
  serve_all-http_requests rs g =
      let l = responses rs g in
      (
        counted rs g ∙ ap (λ e. e ++ g.http_requests) (entries-counts l),
        subst (All (λ (o : Observed). In o.route labels)) (entries-counts l) (entries-labels l),
      )

  abbrev pub Guarded : Route → Type 0
  Guarded register = ⊥
  Guarded login = ⊥
  Guarded unmatched = ⊥
  Guarded _ = Unit

  abbrev pub Stranger : Request → Type 0
  Stranger r = (user_id : String) → ¬ Bears lib c user_id r

  user_limited-Unauthorized :
      (r : Request) (f : String → Handler Gateway) (g : Gateway)
      → Stranger r
      → Unauthorized g (user_limited lib c r f g)
  unfolding user_limited
  user_limited-Unauthorized r f g stranger =
      elim (require_auth_lem (verify lib.jwt c.tokens r.now) r.authorization
        (λ u. limit_by "user" c.user_limit u r (f u)) g) [
          | inl out ↦ out
          | inr (text, u, a, b, v, e) ↦ absurd (stranger u (text, a, b, v))
        ]

  turned_away :
      (route : Route) (r : Request) (g : Gateway)
      → Guarded route
      → Stranger r
      → Unauthorized g (serve_route lib c route r g)
  unfolding serve_route
  turned_away register r g h stranger = absurd h
  turned_away login r g h stranger = absurd h
  turned_away my_wallet r g h stranger = user_limited-Unauthorized r _ g stranger
  turned_away deposits r g h stranger = user_limited-Unauthorized r _ g stranger
  turned_away transfers r g h stranger = user_limited-Unauthorized r _ g stranger
  turned_away (transfer_by_id id) r g h stranger = user_limited-Unauthorized r _ g stranger
  turned_away unmatched r g h stranger = absurd h

  -- A request to a wallet route that bears no token which is good when it comes gets 401, and the
  -- gateway and all that is behind it stay as they were, up to the count of the request.
  pub serve-Guarded :
      (r : Request) (g : Gateway)
      → Guarded (route_of r.method r.path)
      → Stranger r
      → let (a, x) = serve lib c r g in
        (a.status ≡ 401) × (x ≡ record g { http_requests = entry r a ∷ g.http_requests })
  unfolding serve
  serve-Guarded r g guarded stranger =
      let (refused, same) = turned_away (route_of r.method r.path) r g guarded stranger in
      (
        refused,
        λ i. record (same i) {
          http_requests =
              entry r (serve_route lib c (route_of r.method r.path) r g).0 ∷ (same i).http_requests;
        },
      )
