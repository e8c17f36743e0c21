-- ===== src/Accounts/Superusers.antt =====
-- What apps/accounts/managers.py makes, against the roles of apps/accounts/models.py.
use democrance_insurance_api.Prelude.{
  ℕ, ◌≡◌, Bool, Bool-cases, ◌∷◌, All, sym, ap, ◌∙◌, inl, inr, true, false, String, List, any,
  str_eq, arith,
}
use mathlib.Core.Path.{subst}
use democrance_insurance_api.Accounts.{Role, User, is_agent_or_staff, is_customer}
use democrance_insurance_api.Accounts.Manager.{
  ExtraFields, made, new_login, set_default, make_user, create_superuser,
}
use democrance_insurance_api.Schema.{word, same, IsDistinct}
use democrance_insurance_api.Schema.Distinct.{any-fresh}

-- A login that was made: its address is the normalised one, and no other login has it.
pub record IsMade (normalize : String → String) (users : List User) (email : String) (user : User)
    : Type 0 where
  pub given : str_eq email "" ≡ false
  pub address : user.email ≡ normalize email
  pub active : user.is_active ≡ true
  pub distinct :
      IsDistinct (λ (u : User). word u.email) users
      → IsDistinct (λ (u : User). word u.email) (user ∷ users)

module _ (normalize : String → String) (next_user : ℕ) (users : List User) where
  make_user-eq-made :
      (email : String) (is_staff is_superuser : Bool) (role : Role) (user : User)
      → make_user normalize next_user users email is_staff is_superuser role ≡ made user
      → (str_eq email "" ≡ false)
        × (any (λ (u : User). str_eq u.email (normalize email)) users ≡ false)
        × (user ≡ new_login normalize next_user users (normalize email) is_staff is_superuser role)
  unfolding make_user
  make_user-eq-made email is_staff is_superuser role user e = ground arith

  made-IsMade :
      (email : String) (is_staff is_superuser : Bool) (role : Role) (user : User)
      → make_user normalize next_user users email is_staff is_superuser role ≡ made user
      → IsMade normalize users email user
  made-IsMade email is_staff is_superuser role user e =
      let (given, free, row) = make_user-eq-made email is_staff is_superuser role user e in
      let address : user.email ≡ normalize email = ap (λ (u : User). u.email) row in
      record {
        given = given;
        address = address;
        active = ap (λ (u : User). u.is_active) row;
        distinct = λ apart. (
          subst (λ a. All (λ (u : User). same (word u.email) (word a) ≡ false) users) (sym address)
              (any-fresh (λ (u : User). str_eq u.email (normalize email)) users free),
          apart,
        );
      }

  -- A superuser that is made has both flags, the role that was given or else staff, the rights of
  -- staff and not those of a customer; its address is the normalised one, was not empty, and no
  -- other login had it.
  pub create_superuser-IsPrivileged :
      (email : String) (extra : ExtraFields) (user : User)
      → create_superuser normalize next_user users email extra ≡ made user
      → IsMade normalize users email user
        × (user.is_staff ≡ true)
        × (user.is_superuser ≡ true)
        × (user.role ≡ set_default Role.staff extra.role)
        × (is_agent_or_staff user ≡ true)
        × (is_customer user ≡ false)
  unfolding create_superuser is_agent_or_staff is_customer
  create_superuser-IsPrivileged email extra user e =
      elim (Bool-cases (set_default true extra.is_staff)) [
        | inr barred ↦ absurd (ground arith)
        | inl staff ↦ elim (Bool-cases (set_default true extra.is_superuser)) [
          | inr barred ↦ absurd (ground arith)
          | inl root ↦
              let role = set_default Role.staff extra.role in
              let built : make_user normalize next_user users email
                    (set_default true extra.is_staff) (set_default true extra.is_superuser) role
                  ≡ made user =
                ground arith in
              let (given, free, row) = make_user-eq-made email _ _ role user built in
              let is_staff : user.is_staff ≡ true = ap (λ (u : User). u.is_staff) row ∙ staff in
              let is_root : user.is_superuser ≡ true =
                ap (λ (u : User). u.is_superuser) row ∙ root in
              (
                made-IsMade email _ _ role user built,
                is_staff,
                is_root,
                ap (λ (u : User). u.role) row,
                ground arith,
                ground arith,
              )
        ]
      ]
