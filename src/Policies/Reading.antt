-- ===== src/Policies/Reading.antt =====
-- The payment that `PolicyReadSerializer` shows, and the rows that `PolicyListView` shows.
use mathlib.Core.Path.{subst}
use democrance_insurance_api.Prelude.{
  ◌≡◌, inl, inr, refl, sym, ◌==◌, ==_iff, Option-cases, false, none, some, List, [], ◌∷◌, In,
  In-filter, arith, if◌then◌else◌,
}
use democrance_insurance_api.Policies.Rows.{Policy}
use democrance_insurance_api.Policies.Read.{
  is_newer, latest, latest?, payments_of, summary, get_payment,
}
use democrance_insurance_api.Payments.Rows.{Payment}
use democrance_insurance_api.Database.{Db}

latest-In : (best : Payment) (payments : List Payment) → In (latest best payments) (best ∷ payments)
unfolding latest
latest-In best [] = inl refl
latest-In best (p ∷ payments) =
    ground (arith, latest-In (if is_newer p best then p else best) payments)

not_newer_refl : (a : Payment) → is_newer a a ≡ false
not_newer_refl a = ground arith

not_newer_trans :
    (a b c : Payment) → is_newer a b ≡ false → is_newer b c ≡ false → is_newer a c ≡ false
not_newer_trans a b c h k = ground arith

-- The later of two, as the loop keeps it.
abbrev later : Payment → Payment → Payment
later best p = if is_newer p best then p else best

later-not_older :
    (best p : Payment)
    → (is_newer best (later best p) ≡ false) × (is_newer p (later best p) ≡ false)
later-not_older best p = ground arith

latest-not_older_best :
    (best : Payment) (payments : List Payment) → is_newer best (latest best payments) ≡ false
unfolding latest
latest-not_older_best best [] = not_newer_refl best
latest-not_older_best best (p ∷ payments) =
    not_newer_trans best (later best p) (latest (later best p) payments) (later-not_older best p).0
      (latest-not_older_best (later best p) payments)

latest-not_older :
    (best : Payment) (payments : List Payment) (other : Payment)
    → In other payments
    → is_newer other (latest best payments) ≡ false
unfolding latest
latest-not_older best [] other h = absurd h
latest-not_older best (p ∷ payments) other (inl e) =
    subst (λ z. is_newer z (latest (later best p) payments) ≡ false) (sym e)
      (not_newer_trans p (later best p) (latest (later best p) payments) (later-not_older best p).1
        (latest-not_older_best (later best p) payments))
latest-not_older best (p ∷ payments) other (inr h) =
    latest-not_older (later best p) payments other h

no_newest : (payments : List Payment) (p : Payment) → In p payments → ¬ (latest? payments ≡ none)
no_newest [] p h e = h
no_newest (x ∷ payments) p h e = cc

newest_payment :
    (payments : List Payment) (p : Payment)
    → latest? payments ≡ some p
    → In p payments × ((other : Payment) → In other payments → is_newer other p ≡ false)
newest_payment [] p e = cc
newest_payment (x ∷ payments) p e =
    let same : latest x payments ≡ p = cc in
    subst
      (λ z.
        In z (x ∷ payments)
        × ((other : Payment) → In other (x ∷ payments) → is_newer other z ≡ false))
      same
      (
        latest-In x payments,
        λ other h. elim h [
          | inl first ↦
              subst (λ z. is_newer z (latest x payments) ≡ false) (sym first)
                (latest-not_older_best x payments)
          | inr rest ↦ latest-not_older x payments other rest
        ],
      )

-- A policy with a payment in the table is rendered with one of its own payments, and the given
-- payment is not newer than the one shown.
pub get_payment_newest :
    (db : Db) (policy : Policy) (payment : Payment)
    → In payment db.payments
    → payment.policy_id ≡ policy.id
    → (shown : Payment) × In shown db.payments
      × (shown.policy_id ≡ policy.id)
      × (get_payment db policy ≡ some (summary shown))
      × (is_newer payment shown ≡ false)
unfolding get_payment
get_payment_newest db policy payment listed owner =
    let own =
      (In-filter (λ (p : Payment). p.policy_id == policy.id) payment db.payments).1
        (listed, (==_iff payment.policy_id policy.id).1 owner) in
    elim (Option-cases (latest? (payments_of policy.id db))) [
      | inl missing ↦ absurd (no_newest (payments_of policy.id db) payment own missing)
      | inr (shown, e) ↦
          let (at, newest) = newest_payment (payments_of policy.id db) shown e in
          let kept =
            (In-filter (λ (p : Payment). p.policy_id == policy.id) shown db.payments).0 at in
          (
            shown,
            kept.0,
            (==_iff shown.policy_id policy.id).0 kept.1,
            rw e refl,
            newest payment own,
          )
    ]
