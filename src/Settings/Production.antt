-- ===== src/Settings/Production.antt =====
-- What the settings of config/settings/prod.py are once they have loaded.
use democrance_insurance_api.Prelude.{
  ◌≡◌, refl, ◌∙◌, true, false, Option, none, some, String, arith,
}
use democrance_insurance_api.Accounts.{demo_or_authenticated}
use democrance_insurance_api.Settings.{
  Environ, Casts, Settings, Secured, Loaded, loaded, undefined, bad_value, ◌>>=◌, base, prod,
  secure, warn_if_demo_open,
}

module _ {D : Type 0} (casts : Casts D) (environ : Environ) where
  >>=-loaded :
      {A B : Type 0} (m : Loaded A) (rest : A → Loaded B) (b : B)
      → (m >>= rest) ≡ loaded b
      → (a : A) × (m ≡ loaded a) × (rest a ≡ loaded b)
  >>=-loaded (loaded a) rest b e = (a, refl, e)
  >>=-loaded (undefined name) rest b e = cc
  >>=-loaded (bad_value name) rest b e = cc

  -- A production server.
  pub record IsProduction (p : Secured casts environ) : Type 0 where
    pub no_debug : p.settings.debug ≡ false
    pub own_key : environ "SECRET_KEY" ≡ some p.settings.secret_key
    pub own_hosts :
        (hosts : String) × (environ "ALLOWED_HOSTS" ≡ some hosts)
        × (p.settings.allowed_hosts ≡ casts.as_csv hosts)
    pub secure_cookies : (p.session_cookie_secure ≡ true) × (p.csrf_cookie_secure ≡ true)
    pub redirects : environ "SECURE_SSL_REDIRECT" ≡ none → p.secure_ssl_redirect ≡ true
    pub open_by_default :
        environ "DEMO_OPEN_API" ≡ none
        → (demo_or_authenticated p.settings.demo_open_api none ≡ true)
          × (warn_if_demo_open p.settings ≡ true)

  base-demo_open :
      (s : Settings D)
      → base casts environ ≡ loaded s
      → environ "DEMO_OPEN_API" ≡ none
      → s.demo_open_api ≡ true
  unfolding base
  base-demo_open s e unset = ground arith

  -- What the assignments of prod.py leave.
  record IsSecured (s : Settings D) (key hosts redirect : Option String) (p : Secured casts environ)
      : Type 0 where
    no_debug : p.settings.debug ≡ false
    own_key : key ≡ some p.settings.secret_key
    own_hosts :
        (text : String) × (hosts ≡ some text) × (p.settings.allowed_hosts ≡ casts.as_csv text)
    cookies : (p.session_cookie_secure ≡ true) × (p.csrf_cookie_secure ≡ true)
    redirects : redirect ≡ none → p.secure_ssl_redirect ≡ true
    same_demo : p.settings.demo_open_api ≡ s.demo_open_api

  secure-IsSecured :
      (s : Settings D) (key hosts redirect seconds : Option String) (p : Secured casts environ)
      → secure casts environ s key hosts redirect seconds ≡ loaded p
      → IsSecured s key hosts redirect p
  secure-IsSecured s none hosts redirect seconds p e = cc
  secure-IsSecured s (some key) none redirect seconds p e = cc
  secure-IsSecured s (some key) (some hosts) redirect seconds p e = record {
    no_debug = ground arith;
    own_key = ground arith;
    own_hosts = (hosts, refl, ground arith);
    cookies = (ground arith, ground arith);
    redirects = λ unset. ground arith;
    same_demo = ground arith;
  }

  -- Settings of production that load have debug off, secure cookies, and the secret key and the
  -- hosts of the environment; HTTPS redirects are on unless the environment says otherwise; and
  -- where DEMO_OPEN_API is not set, requests without a login pass the default permission and the
  -- warning is logged.
  pub prod-IsProduction :
      (p : Secured casts environ) → prod casts environ ≡ loaded p → IsProduction p
  unfolding prod demo_or_authenticated warn_if_demo_open
  prod-IsProduction p e =
      let (s, at_base, rest) =
        >>=-loaded (base casts environ)
          (λ s.
            secure casts environ s (environ "SECRET_KEY") (environ "ALLOWED_HOSTS")
              (environ "SECURE_SSL_REDIRECT") (environ "SECURE_HSTS_SECONDS"))
          p e in
      let secured =
        secure-IsSecured s (environ "SECRET_KEY") (environ "ALLOWED_HOSTS")
          (environ "SECURE_SSL_REDIRECT") (environ "SECURE_HSTS_SECONDS") p rest in
      record {
        no_debug = secured.no_debug;
        own_key = secured.own_key;
        own_hosts = secured.own_hosts;
        secure_cookies = secured.cookies;
        redirects = secured.redirects;
        open_by_default = λ unset.
            let open_api = secured.same_demo ∙ base-demo_open s at_base unset in
            (open_api, rw open_api refl);
      }
