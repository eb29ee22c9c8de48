-- ===== src/HttpServer/Routes/Security.antt =====
-- Nothing is done to a call, and none is placed, for a request without the key.
use vbgw_pjsip_v.Common.{
  ℕ, ◌≡◌, ◌≢◌, inl, inr, refl, Text, codes, text_eq, Option, none, some, Bool, true, false, arith,
  if◌then◌else◌, Option-cases, [], ◌<◌, length,
}
use vbgw_pjsip_v.HttpServer.Parse.{parse_session_id_from_path}
use vbgw_pjsip_v.HttpServer.Validate.{constant_time_equals, xor, diff_loop}
use vbgw_pjsip_v.HttpServer.KeyCheck.{IsBytes, constant_time_equals_iff}
use vbgw_pjsip_v.SessionManager.{get_call}
use vbgw_pjsip_v.HttpServer.Response.{
  Response, Settings, Engine, World, check_admin_key, unless_answered, handle_list,
}
use vbgw_pjsip_v.HttpServer.Handlers.{
  handle_call_dtmf, handle_call_transfer, handle_call_record_start, handle_call_record_stop,
  handle_bridge_calls,
}
use vbgw_pjsip_v.HttpServer.Outbound.{handle_outbound_call}
use vbgw_pjsip_v.HttpServer.Outbound.Refusals.{handle_outbound_call-refused}
use vbgw_pjsip_v.HttpServer.Routes.{
  Request, Pages, or_else, handle_call_stats, serve_post, serve_get, serve,
}

module _ (api : Engine) (pages : Pages api.State) where
  open api use {State}

  -- Everything but the counters is as it was.
  pub record Untouched (w w' : World State) : Type 0 where
    pub engine_same : w'.engine ≡ w.engine
    pub sessions_same : w'.sessions ≡ w.sessions
    pub bucket_same : w'.bucket ≡ w.bucket

  same : (w : World State) → Untouched w w
  same w = record { engine_same = refl; sessions_same = refl; bucket_same = refl }

  -- An early return leaves the world.
  unless-Untouched :
      (cfg : Settings) (key : Text) (w : World State) (next : Response × World State)
      → check_admin_key cfg key ≢ none
      → Untouched w (unless_answered (check_admin_key cfg key) w next).1
  unless-Untouched cfg key w next bad = elim (Option-cases (check_admin_key cfg key)) [
    | inl good ↦ absurd (bad good)
    | inr (r, e) ↦ rw e (same w)
  ]

  outbound-Untouched :
      (cfg : Settings) (now : ℕ) (body key : Text) (w : World State)
      → check_admin_key cfg key ≢ none
      → Untouched w (handle_outbound_call api cfg now body key w).1
  outbound-Untouched cfg now body key w bad =
      let (e, s, b) = handle_outbound_call-refused api cfg now body key w bad in
      record { engine_same = e; sessions_same = s; bucket_same = b }

  or_else-Untouched :
      (found : Option Text) (handler : Text → Response × World State)
      (next : Response × World State) (w : World State)
      → ((session_id : Text) → Untouched w (handler session_id).1)
      → Untouched w next.1
      → Untouched w (or_else api pages found handler next).1
  or_else-Untouched (some session_id) handler next w h n = h session_id
  or_else-Untouched none handler next w h n = n

  -- A choice between two answers.
  if-Untouched :
      (b : Bool) (first second : Response × World State) (w : World State)
      → Untouched w first.1
      → Untouched w second.1
      → Untouched w (if b then first else second).1
  if-Untouched true first second w y n = y
  if-Untouched false first second w y n = n

  post-Untouched :
      (cfg : Settings) (now : ℕ) (req : Request) (w : World State)
      → check_admin_key cfg req.admin_key ≢ none
      → Untouched w (serve_post api pages cfg now req w).1
  unfolding serve_post handle_call_dtmf handle_call_transfer handle_call_record_start
      handle_call_record_stop handle_bridge_calls
  post-Untouched cfg now req w bad =
      let path = req.req_path in
      let key = req.admin_key in
      if-Untouched (text_eq path (codes "/api/v1/calls")) _ _ w
        (outbound-Untouched cfg now req.body key w bad)
        (if-Untouched (text_eq path (codes "/api/v1/calls/bridge")) _ _ w
          (unless-Untouched cfg key w _ bad)
          (if-Untouched (text_eq path (codes "/api/v1/calls/unbridge")) _ _ w
            (unless-Untouched cfg key w _ bad)
            (or_else-Untouched (parse_session_id_from_path path (codes "/dtmf")) _ _ w
              (λ id. unless-Untouched cfg key w _ bad)
              (or_else-Untouched (parse_session_id_from_path path (codes "/transfer")) _ _ w
                (λ id. unless-Untouched cfg key w _ bad)
                (or_else-Untouched (parse_session_id_from_path path (codes "/record/start")) _ _ w
                  (λ id. unless-Untouched cfg key w _ bad)
                  (or_else-Untouched (parse_session_id_from_path path (codes "/record/stop")) _ _ w
                    (λ id. unless-Untouched cfg key w _ bad) (same w)))))))

  stats_same :
      (cfg : Settings) (session_id key : Text) (w : World State)
      → (handle_call_stats api pages cfg session_id key w).1 ≡ w
  unfolding handle_call_stats
  stats_same cfg session_id key w = elim (Option-cases (check_admin_key cfg key)) [
    | inr (r, e) ↦ rw e refl
    | inl good ↦ elim (Option-cases (get_call session_id w.sessions)) [
      | inl missing ↦ rw (good, missing) refl
      | inr (call, e) ↦ rw (good, e) refl
    ]
  ]

  stats_found :
      (cfg : Settings) (found : Option Text) (key : Text) (w : World State) (next : Response)
      → Untouched w
          (or_else api pages found (λ id. handle_call_stats api pages cfg id key w) (next, w)).1
  stats_found cfg none key w next = same w
  stats_found cfg (some id) key w next = rw (stats_same cfg id key w) (same w)

  get-Untouched :
      (cfg : Settings) (req : Request) (w : World State)
      → Untouched w (serve_get api pages cfg req w).1
  unfolding serve_get
  get-Untouched cfg req w =
      let path = req.req_path in
      if-Untouched (text_eq path (codes "/live")) _ _ w (same w) (
        if-Untouched (text_eq path (codes "/ready")) _ _ w (same w) (
          if-Untouched (text_eq path (codes "/health")) _ _ w (same w) (
            if-Untouched (text_eq path (codes "/metrics")) _ _ w (same w) (
              if-Untouched (text_eq path (codes "/api/v1/services")) _ _ w (same w) (
                if-Untouched (text_eq path (codes "/api/v1/sessions/active")) _ _ w (same w) (
                  stats_found cfg (parse_session_id_from_path path (codes "/stats")) req.admin_key w
                    _))))))

  key_refused :
      (cfg : Settings) (key : Text)
      → IsBytes key
      → IsBytes cfg.admin_api_key
      → length key < 256
      → length cfg.admin_api_key < 256
      → key ≢ cfg.admin_api_key
      → check_admin_key cfg key ≢ none
  unfolding check_admin_key
  key_refused cfg key b c p q ne =
      ground (arith, constant_time_equals_iff key cfg.admin_api_key b c p q)

  -- A request whose key is not the configured one, both of fewer than 256 bytes, changes no call,
  -- places none and takes no rate-limit token, whatever its method and path.
  pub serve-Untouched :
      (cfg : Settings) (now : ℕ) (req : Request) (w : World State)
      → IsBytes req.admin_key
      → IsBytes cfg.admin_api_key
      → length req.admin_key < 256
      → length cfg.admin_api_key < 256
      → req.admin_key ≢ cfg.admin_api_key
      → Untouched w (serve api pages cfg now req w).1
  unfolding serve
  serve-Untouched cfg now req w b c p q ne =
      if-Untouched (text_eq req.req_method (codes "GET")) _ _ w (get-Untouched cfg req w) (
        if-Untouched (text_eq req.req_method (codes "POST")) _ _ w
          (post-Untouched cfg now req w (key_refused cfg req.admin_key b c p q ne)) (same w))

-- With no key configured the handlers of a call answer 503 whatever the key, but the two lists are
-- answered to a request with no key.
pub handle_list-unset :
    (cfg : Settings) (listing key : Text)
    → cfg.admin_api_key ≡ []
    → ((r : Response) × (check_admin_key cfg key ≡ some r) × (r.status_code ≡ 503))
      × ((handle_list cfg listing []).status_code ≡ 200)
      × ((handle_list cfg listing []).body ≡ listing)
unfolding check_admin_key handle_list constant_time_equals diff_loop xor
handle_list-unset cfg listing key e = rw e ((_, refl, refl), refl, refl)
