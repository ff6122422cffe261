-- ===== src/Server/Router/Strangers.antt =====
-- Requests of those who have neither a password nor the token of a client nor a live session.
use backitup.Prelude.{
  ℕ, ◌≡◌, ◌≢◌, ◌⊎◌, refl, sym, ap, subst, ◌∙◌, Bool, true, false, any, ltb, eq_of_==, List, [], ◌∷◌,
  map, find, All, Text, Outcome, ok, err, Option, none, some, ◌==◌, text_eq, Bool-cases,
  Option-cases, inl, inr, arith,
}
use backitup.Model.{Client}
use backitup.Store.Users.{get_user_by_username}
use backitup.Auth.Sessions.{SessionStore, valid, delete, lookup, remove}
use backitup.Auth.Sessions.Laws.{
  lookup-remove, lookup-remove_other, valid_of_absent, valid_of_lookup,
}
use backitup.Prelude.Rows.{All-mono}
use backitup.Server.Response.{Response}
use backitup.Server.Limiter.{allow}
use backitup.Server.Login.{
  Credentials, is_user, require_admin, check_login, post_login, post_logout,
}
use backitup.Server.ClientApi.{require_client}
use backitup.Server.Routes.{Open, Admin, Api, Handler, routes}
use backitup.Server.Router.{
  Request, Site, bearer_token, serve_open, serve_admin, serve_api, handle, run_route, dispatch,
  serve, serve_all,
}

-- A request carries this cookie.
abbrev pub presents : Text → Option Text → Bool
presents t none = false
presents t (some c) = c == t

-- What a request with a cookie leaves of the session of a token: all, or, of its own, nothing.
abbrev Thinned : Option Text → Text → SessionStore → SessionStore → Type 0
Thinned cookie t s s' =
    (lookup t s'.tokens ≡ lookup t s.tokens)
    ⊎ ((lookup t s'.tokens ≡ none) × (presents t cookie ≡ true))

remove-Thinned :
    (c t : Text) (s : SessionStore) → Thinned (some c) t s (record s { tokens = remove c s.tokens })
remove-Thinned c t s = elim (Bool-cases (c == t)) [
  | inl e ↦
      let same : c ≡ t = eq_of_== c t e in
      inr
        (subst (λ x. lookup t (remove x s.tokens) ≡ none) (sym same) (lookup-remove t s.tokens), e)
  | inr e ↦ inl (lookup-remove_other c t s.tokens (λ h. ground (arith, e, h)))
]

valid-Thinned : (c t : Text) (now : ℕ) (s : SessionStore) → Thinned (some c) t s (valid c now s).1
unfolding valid
valid-Thinned c t now s = elim (Bool-cases (c == [])) [
  | inl e ↦ rw e (inl refl)
  | inr e ↦ elim (Option-cases (lookup c s.tokens)) [
    | inl q ↦ rw (e, q) (inl refl)
    | inr (entry, q) ↦ elim (Bool-cases (ltb now entry.expiry)) [
      | inl live ↦ rw (e, q, live) (inl refl)
      | inr late ↦ rw (e, q, late) (remove-Thinned c t s)
    ]
  ]
]

empty-dead : (c : Text) (now : ℕ) (s : SessionStore) → (c == []) ≡ true → (valid c now s).0 ≡ false
unfolding valid
empty-dead c now s e = rw e refl

-- A token that is dead stays so where its session is the same or gone.
valid-dead :
    (c : Text) (now : ℕ) (cookie : Option Text) (s s' : SessionStore)
    → Thinned cookie c s s'
    → (valid c now s).0 ≡ false
    → (valid c now s').0 ≡ false
valid-dead c now cookie s s' (inr (q, p)) h = valid_of_absent c now s' q
valid-dead c now cookie s s' (inl q) h = elim (Option-cases (lookup c s.tokens)) [
  | inl a ↦ valid_of_absent c now s' (q ∙ a)
  | inr (e, a) ↦ elim (Bool-cases (c == [])) [
    | inl z ↦ empty-dead c now s' z
    | inr z ↦
        let full : c ≢ [] = λ k. ground (arith, z, k) in
        valid_of_lookup c now s' e full (q ∙ a) ∙ sym (valid_of_lookup c now s e full a) ∙ h
  ]
]

require_admin_dead :
    (c : Text) (now : ℕ) (s : SessionStore)
    → (valid c now s).0 ≡ false
    → require_admin (some c) now s ≡ (none, (valid c now s).1)
unfolding require_admin
require_admin_dead c now s h = ground (arith, h)

module _ (verify_password : Text → Text → Outcome Text Bool) (serve_file : Text → Response)
    (admin : Admin → Text → Request → ℕ → Site → Response × Site)
    (api : Api → Client → Request → ℕ → Site → Response × Site) where
  -- No user has the password of the form, no client the token, and the cookie is of no live session.
  abbrev pub IsStranger : Site → Request × ℕ → Type 0
  IsStranger s (r, now) =
      ((f : Credentials)
        → r.form ≡ some f
        → is_user verify_password f (get_user_by_username f.username s.db) ≡ false)
      × (require_client verify_password (bearer_token r.authorization) s.db ≡ none)
      × ((c : Text) → r.cookie ≡ some c → (valid c now s.gate.sessions).0 ≡ false)

  -- What one request leaves.
  abbrev IsKept : Option Text → Site → Site → Type 0
  IsKept cookie s s' =
      (s'.db ≡ s.db) × ((t : Text) → Thinned cookie t s.gate.sessions s'.gate.sessions)

  IsKept-refl : (cookie : Option Text) (s : Site) → IsKept cookie s s
  IsKept-refl cookie s = (refl, λ t. inl refl)

  post_login-sessions :
      (r : Request) (now : ℕ) (s : Site)
      → IsStranger s (r, now)
      → (post_login verify_password r.ip r.form r.token now s.db s.gate).1.sessions
        ≡ s.gate.sessions
  unfolding post_login check_login
  post_login-sessions r now s (wrong, _, _) = elim (Bool-cases (allow r.ip now s.gate.limiter).0) [
    | inr n ↦ rw n refl
    | inl y ↦ elim (Option-cases r.form) [
      | inl q ↦ rw (y, q) refl
      | inr (f, q) ↦ rw (y, q, wrong f q) refl
    ]
  ]

  serve_open-IsKept :
      (h : Open) (r : Request) (now : ℕ) (s : Site)
      → IsStranger s (r, now)
      → IsKept r.cookie s (serve_open verify_password serve_file admin api h r now s).1
  unfolding serve_open post_logout delete
  serve_open-IsKept Open.healthz r now s w = IsKept-refl r.cookie s
  serve_open-IsKept Open.static r now s w = IsKept-refl r.cookie s
  serve_open-IsKept Open.get_login r now s w = IsKept-refl r.cookie s
  serve_open-IsKept Open.post_login r now s w =
      let kept = post_login-sessions r now s w in
      (refl, λ t. inl (ap (λ x. lookup t x.tokens) kept))
  serve_open-IsKept Open.post_logout r now s w = elim (Option-cases r.cookie) [
    | inl k ↦ rw k (IsKept-refl none s)
    | inr (c, k) ↦ rw k (refl, λ t. remove-Thinned c t s.gate.sessions)
  ]

  handle-IsKept :
      (h : Handler) (r : Request) (now : ℕ) (s : Site)
      → IsStranger s (r, now)
      → IsKept r.cookie s (handle verify_password serve_file admin api h r now s).1
  unfolding handle serve_admin serve_api require_admin
  handle-IsKept (Handler.plain h) r now s w = serve_open-IsKept h r now s w
  handle-IsKept (Handler.require_admin h) r now s (_, _, dead) = elim (Option-cases r.cookie) [
    | inl k ↦ rw k (IsKept-refl none s)
    | inr (c, k) ↦
        rw (k, require_admin_dead c now s.gate.sessions (dead c k))
          (refl, λ t. valid-Thinned c t now s.gate.sessions)
  ]
  handle-IsKept (Handler.require_client h) r now s (_, unknown, _) =
      rw unknown (IsKept-refl r.cookie s)

  module _ (mux : List Text → Text → Text → Outcome Response Text) where
    serve-IsKept :
        (r : Request) (now : ℕ) (s : Site)
        → IsStranger s (r, now)
        → IsKept r.cookie s (serve verify_password serve_file admin api mux r now s).1
    unfolding serve
    serve-IsKept r now s w = by_pattern (mux (map (λ route. route.0) routes) r.method r.path)
      where
        by_route :
            (x : Option (Text × Handler))
            → IsKept r.cookie s (run_route verify_password serve_file admin api mux x r now s).1
        by_route none = IsKept-refl r.cookie s
        by_route (some route) = handle-IsKept route.1 r now s w

        by_pattern :
            (p : Outcome Response Text)
            → IsKept r.cookie s (dispatch verify_password serve_file admin api mux p r now s).1
        by_pattern (err a) = IsKept-refl r.cookie s
        by_pattern (ok pattern) = by_route (find (λ route. route.0 == pattern) routes)

    -- A stranger is one also behind a request of a stranger.
    IsStranger-IsKept :
        (cookie : Option Text) (s s' : Site) (r : Request × ℕ)
        → IsKept cookie s s'
        → IsStranger s r
        → IsStranger s' r
    IsStranger-IsKept cookie s s' (r, now) (q, thin) (wrong, unknown, dead) = (
      λ f e. rw q (wrong f e),
      rw q unknown,
      λ c e. valid-dead c now cookie s.gate.sessions s'.gate.sessions (thin c) (dead c e),
    )

    -- Where none of the requests has the password of a user, the token of a client, or a cookie whose
    -- session is live at its time, the database stays as it is, and so does the session of every token
    -- that is not the cookie of one of the requests; of one that is, no session is left, or the one
    -- that was there: whoever else is logged in, whatever the handlers behind the guards do and
    -- whichever routes the requests take.
    pub serve_all-strangers :
        (rs : List (Request × ℕ)) (s : Site) (t : Text)
        → All (IsStranger s) rs
        → let s' = serve_all verify_password serve_file admin api mux rs s in
          (s'.db ≡ s.db)
          × ((lookup t s'.gate.sessions.tokens ≡ lookup t s.gate.sessions.tokens)
              ⊎ ((lookup t s'.gate.sessions.tokens ≡ none)
                  × (any (λ r. presents t r.0.cookie) rs ≡ true)))
    unfolding serve_all
    serve_all-strangers [] s t w = (refl, inl refl)
    serve_all-strangers (r ∷ rs) s t (w, ws) =
        let s1 : Site = (serve verify_password serve_file admin api mux r.0 r.1 s).1 in
        let kept : IsKept r.0.cookie s s1 = serve-IsKept r.0 r.1 s w in
        let (same, rest) = serve_all-strangers rs s1 t (
          All-mono (IsStranger s) (IsStranger s1) rs (λ x. IsStranger-IsKept r.0.cookie s s1 x kept)
            ws) in
        (
          same ∙ kept.0,
          elim rest [
            | inr (gone, p) ↦ inr (gone, ground (arith, p))
            | inl e ↦ elim (kept.1 t) [
              | inl f ↦ inl (e ∙ f)
              | inr (gone, p) ↦ inr (e ∙ gone, ground (arith, p))
            ]
          ],
        )
