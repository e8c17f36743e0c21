-- ===== src/Accounts/Manager.antt =====
-- apps/accounts/managers.py: how a login is made. Django's `normalize_email` is a parameter; the
-- password is left out, and so are the extra fields other than the two flags and the role. A
-- keyword that the caller leaves out is `none`.
use democrance_insurance_api.Prelude.{
  ℕ, Bool, true, false, not, Option, none, some, String, List, any, str_eq, if◌then◌else◌,
}
use democrance_insurance_api.Accounts.{Role, User}

-- `extra_fields`
pub record ExtraFields : Type 0 where
  pub is_staff : Option Bool
  pub is_superuser : Option Bool
  pub role : Option Role

-- The row, one of the three ValueErrors, or the violation of the unique column `email`.
pub data Made : Type 0 where
  made : User → Made
  no_email not_staff not_superuser email_taken : Made

-- `extra_fields.setdefault(name, value)`
abbrev pub set_default {ℓ} : {A : Type ℓ} → A → Option A → A
set_default d none = d
set_default d (some a) = a

module _ (normalize : String → String) (next_user : ℕ) (users : List User) where
  -- `self.model(email=email, **extra_fields)`
  abbrev pub new_login : String → Bool → Bool → Role → User
  new_login email is_staff is_superuser role = record {
    id = next_user;
    email = email;
    role = role;
    first_name = "";
    last_name = "";
    is_active = true;
    is_staff = is_staff;
    is_superuser = is_superuser;
  }

  -- `_create_user`
  unfoldable pub make_user : String → Bool → Bool → Role → Made
  make_user email is_staff is_superuser role =
      if str_eq email ""
      then no_email
      else if any (λ (u : User). str_eq u.email (normalize email)) users
      then email_taken
      else made (new_login (normalize email) is_staff is_superuser role)

  -- `create_user`
  unfoldable pub create_user : String → ExtraFields → Made
  create_user email extra =
      make_user email (set_default false extra.is_staff) (set_default false extra.is_superuser)
        (set_default Role.customer extra.role)

  -- `create_superuser`
  unfoldable pub create_superuser : String → ExtraFields → Made
  create_superuser email extra =
      let is_staff = set_default true extra.is_staff in
      let is_superuser = set_default true extra.is_superuser in
      if not is_staff
      then not_staff
      else if not is_superuser
      then not_superuser
      else make_user email is_staff is_superuser (set_default Role.staff extra.role)
