-- ===== src/Settings.antt =====
-- config/settings/base.py and prod.py: the settings that the code reads, from the environment.
-- python-decouple and dj-database-url are parameters: `as_bool`, `as_int` and `as_csv` are
-- decouple's casts, `parse_url` parses DATABASE_URL.
pub mod Production
use democrance_insurance_api.Prelude.{
  ℕ, ℤ, pos, Bool, true, false, Option, none, some, String, List, [], ◌∷◌, str_eq, if◌then◌else◌,
}

-- A value, the name of a variable that has neither a value nor a default, or the name of one
-- whose value does not cast.
pub data Loaded {ℓ} (A : Type ℓ) : Type ℓ where
  loaded : A → Loaded A
  undefined bad_value : String → Loaded A

infixl 5 ◌>>=◌
abbrev pub ◌>>=◌ : {A B : Type 0} → Loaded A → (A → Loaded B) → Loaded B
loaded a >>= rest = rest a
undefined name >>= rest = undefined name
bad_value name >>= rest = bad_value name

-- What the environment, or the `.env` file, has under a name.
abbrev pub Environ : Type 0
Environ = String → Option String

pub record Casts (D : Type 0) : Type 0 where
  pub as_bool : String → Option Bool
  pub as_int : String → Option ℤ
  pub as_csv : String → List String
  pub parse_url : String → Option D

-- `DATABASES["default"]`
pub data DatabaseChoice (D : Type 0) : Type 0 where
  sqlite memory : DatabaseChoice D
  from_url : D → DatabaseChoice D

pub record Settings (D : Type 0) : Type 0 where
  pub secret_key : String
  pub debug : Bool
  pub allowed_hosts : List String
  pub demo_open_api : Bool
  pub default_currency : String
  pub customer_min_age : ℤ
  pub customer_max_age : ℤ
  pub quote_validity_days : ℤ
  pub database : DatabaseChoice D

abbrev pub cast_with : {A : Type 0} → String → Option A → Loaded A
cast_with name none = bad_value name
cast_with name (some a) = loaded a

-- `config(name, cast=…)`
abbrev pub config : {A : Type 0} → (String → Option A) → String → Option String → Loaded A
config cast name none = undefined name
config cast name (some text) = cast_with name (cast text)

-- `config(name, default=…, cast=…)`
abbrev pub config_or : {A : Type 0} → (String → Option A) → A → String → Option String → Loaded A
config_or cast default name none = loaded default
config_or cast default name (some text) = cast_with name (cast text)

module _ {D : Type 0} (casts : Casts D) (environ : Environ) where
  open casts use {as_bool, as_int, as_csv, parse_url}

  abbrev pub text : String → String → Loaded String
  text name default = config_or some default name (environ name)

  -- `DATABASE_URL`: an empty text chooses SQLite.
  abbrev pub choose_database : String → Loaded (DatabaseChoice D)
  choose_database url =
      if str_eq url ""
      then loaded sqlite
      else (cast_with "DATABASE_URL" (parse_url url) >>= λ d. loaded (from_url d))

  -- config/settings/base.py
  unfoldable pub base : Loaded (Settings D)
  base = do
    secret_key ← text "SECRET_KEY" "django-insecure-dev-key-not-for-production"
    debug ← config_or as_bool false "DEBUG" (environ "DEBUG")
    hosts ← text "ALLOWED_HOSTS" "localhost,127.0.0.1"
    demo_open_api ← config_or as_bool true "DEMO_OPEN_API" (environ "DEMO_OPEN_API")
    default_currency ← text "DEFAULT_CURRENCY" "AED"
    min_age ← config_or as_int (pos 18) "CUSTOMER_MIN_AGE" (environ "CUSTOMER_MIN_AGE")
    max_age ← config_or as_int (pos 100) "CUSTOMER_MAX_AGE" (environ "CUSTOMER_MAX_AGE")
    days ← config_or as_int (pos 30) "QUOTE_VALIDITY_DAYS" (environ "QUOTE_VALIDITY_DAYS")
    url ← text "DATABASE_URL" ""
    database ← choose_database url
    loaded (record {
      secret_key = secret_key;
      debug = debug;
      allowed_hosts = as_csv hosts;
      demo_open_api = demo_open_api;
      default_currency = default_currency;
      customer_min_age = min_age;
      customer_max_age = max_age;
      quote_validity_days = days;
      database = database;
    })

  -- What prod.py adds to the settings.
  pub record Secured : Type 0 where
    pub settings : Settings D
    pub secure_ssl_redirect : Bool
    pub secure_hsts_seconds : ℤ
    pub secure_hsts_include_subdomains : Bool
    pub secure_hsts_preload : Bool
    pub secure_content_type_nosniff : Bool
    pub session_cookie_secure : Bool
    pub csrf_cookie_secure : Bool

  -- The assignments of prod.py, on the values of the four variables that it reads.
  abbrev pub secure :
      Settings D → Option String → Option String → Option String → Option String → Loaded Secured
  secure settings key hosts redirect seconds = do
    secret_key ← config some "SECRET_KEY" key
    allowed_hosts ← config some "ALLOWED_HOSTS" hosts
    secure_ssl_redirect ← config_or as_bool true "SECURE_SSL_REDIRECT" redirect
    secure_hsts_seconds ← config_or as_int (pos 31_536_000) "SECURE_HSTS_SECONDS" seconds
    loaded (record {
      settings = record settings {
        debug = false;
        secret_key = secret_key;
        allowed_hosts = as_csv allowed_hosts;
      };
      secure_ssl_redirect = secure_ssl_redirect;
      secure_hsts_seconds = secure_hsts_seconds;
      secure_hsts_include_subdomains = true;
      secure_hsts_preload = true;
      secure_content_type_nosniff = true;
      session_cookie_secure = true;
      csrf_cookie_secure = true;
    })

  -- config/settings/prod.py: base.py, then its own assignments.
  unfoldable pub prod : Loaded Secured
  prod = do
    settings ← base
    secure settings (environ "SECRET_KEY") (environ "ALLOWED_HOSTS") (environ "SECURE_SSL_REDIRECT")
        (environ "SECURE_HSTS_SECONDS")

  -- config/settings/dev.py
  unfoldable pub dev : Loaded (Settings D)
  dev = base >>= λ settings. loaded (record settings { debug = true; allowed_hosts = "*" ∷ [] })

  -- config/settings/test.py, whose database is in memory unless DATABASE_URL is set.
  abbrev pub in_memory : DatabaseChoice D → DatabaseChoice D
  in_memory sqlite = memory
  in_memory memory = memory
  in_memory (from_url d) = from_url d

  unfoldable pub test : Loaded (Settings D)
  test = base >>= λ settings.
      loaded (record settings { debug = false; database = in_memory settings.database })

-- `warn_if_demo_open` of apps/accounts/apps.py: whether it logged its warning.
unfoldable pub warn_if_demo_open : {D : Type 0} → Settings D → Bool
warn_if_demo_open s = if s.demo_open_api then true else false
