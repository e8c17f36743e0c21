-- ===== src/Lib.antt =====
-- democrance_insurance_api: a quote-and-policy service for insurance (Django, Django REST
-- framework). A customer asks for a quote, the rating engine prices it from date-versioned rules,
-- the quote is accepted, and a simulated payment binds the policy. Paths are from the
-- repository's root.
--
-- Parts and files:
--   Prelude       tests on numbers, signed integers and list lemmas that the parts share
--   Dates         dates and their order; Dates/Text: apps/common/fields.py and the parsing of
--                 apps/customers/filters.py
--   Customers     apps/customers/models.py: `age_at`, `clean`
--   Customers/Endpoints   apps/customers/serializers.py and views.py: creating a customer
--   Products      apps/products/models.py: products, rating rules, `clean` (Products/Clean)
--   Products/Rating   apps/products/rating.py: `select_rule`, `calculate_premium`
--   Policies/StateMachine   apps/policies/state_machine.py: `TRANSITIONS`, `can_transition`
--   Policies/Rows     apps/policies/models.py: the policy and its history rows
--   Policies/Services   apps/policies/services.py: `create_quote`, `accept_quote`,
--                 `activate_policy`
--   Payments/Rows, Payments/Services   apps/payments: `simulate_payment`; Payments/Racing: a
--                 payment after an earlier lookup of its key (Lifecycle/Racing)
--   Policies/Serializers, Policies/Views   apps/policies/serializers.py and views.py: the strict
--                 inputs, the dispatcher `QuoteDispatchView.post` and its aliases
--   Policies/Read   apps/policies/serializers.py and views.py: the rendered policy, its payment,
--                 the detail and the list
--   Policies/Listing   apps/policies/views.py: the orders that a client may choose
--   Policies/Timeline   apps/policies/serializers.py and views.py: the history as it is shown
--   Policies/Admin   apps/policies/admin.py: the two bulk actions
--   Policies/AdminForm   apps/policies/admin.py: the form of a policy, and adding one
--   Policies/AdminDelete   apps/policies/admin.py and apps/payments/admin.py: permissions, and
--                 deleting policies on the admin site
--   Products/Seed   apps/products/migrations/0002_seed_rating_rules.py: the first catalogue;
--                 Products/Unseed: the migration backwards
--   Products/Tariff   rule tables up to the order of their rows, as a quotient
--   Search        apps/search/views.py, apps/customers/filters.py, apps/policies/filters.py
--   Accounts      apps/accounts/models.py and permissions.py: roles, permissions, scoping
--   Accounts/Manager   apps/accounts/managers.py: how logins are made
--   Accounts/Session   apps/accounts/views.py and serializers.py: `LogoutView` and `MeView`; the
--                 probe of apps/common/views.py
--   Accounts/Demo   apps/accounts/management/commands/seed_demo.py
--   Common/Errors   apps/common/errors.py and exceptions.py: error codes
--   Common/Handler   apps/common/exceptions.py: `custom_exception_handler`
--   Common/Requests   the default permission class around a view, and how a request ends
--   Common/Middleware   apps/common/middleware.py and logging.py: the id of a request
--   Settings      config/settings and apps/accounts/apps.py: the settings from the environment
--   Routing       the urls.py files and apps/common/schema.py
--   Database      the tables, the outside world and the actions on them
--   Database/Deleting   the `on_delete` of the foreign keys in the models.py files
--   Database/Answers   what a query with ORDER BY may answer
--   Schema        the first migrations of the apps: columns, NOT NULL and UNIQUE
--   Lifecycle     the steps of the lifecycle as a relation on the tables, and the services as
--                 runs of it
--   Tests         runs on a small catalogue
--
-- How they interact: a view validates a body and calls a service; a service is an action on the
-- `World`, which is the tables and the number of questions asked to the outside. `Env` answers
-- the questions: clock, UUIDs, the calendar date and the text of a reference; it also holds the
-- settings that the code reads. `create_quote` calls the rating engine and `simulate_payment`
-- calls `activate_policy`, as in the source.
--
-- Conventions. Money is in hundredths, rates and loadings in ten-thousandths, so decimals are
-- integers; a price before rounding is in units of 10^-13 and is exact, since the decimal context
-- has 28 digits. A datetime is a number of microseconds, a UUID a number. Tables hold their rows
-- newest first. `transaction.atomic` restores the tables when its body raises. A row lock lasts
-- to the end of the transaction, so calls on a policy run one after another: a race is one of
-- the sequences of calls. Two payments of different policies may race for one key: `pay_with` is a
-- payment whose lookup of the key is older. The premium column holds ten digits; the unique columns of a policy's
-- reference and a payment's reference and key raise an integrity error. No function needs fuel: every
-- loop of the source runs over a list.
--
-- Not modelled: the lines that the services log, the text of messages, the parsing of single
-- fields by Django REST framework (parameters `Fields` and `CustomerFields`), the parsing of
-- page numbers and of `?ordering=`, the orders of customers that a client may choose, issuing
-- tokens, admin displays, indexes, the options of the frameworks in the settings, and the web
-- page. A user's password is left out but for
-- the hash that the seeding of the demo writes.
pub mod Prelude
pub mod Dates
pub mod Customers
pub mod Products
pub mod Policies
pub mod Accounts
pub mod Common
pub mod Payments
pub mod Database
pub mod Lifecycle
pub mod Schema
pub mod Search
pub mod Routing
pub mod Settings
pub mod Tests
