-- ===== src/Policies/AdminDelete.antt =====
-- apps/policies/admin.py and apps/payments/admin.py: what a superuser may add, change and delete on
-- the admin site, and deleting policies there. Before it deletes, the site asks for the
-- permission on every row that would go too.
use democrance_insurance_api.Prelude.{ℕ, Bool, true, false, not, ◌&&◌, any, if◌then◌else◌}
use democrance_insurance_api.Policies.Rows.{PolicyStateTransition}
use democrance_insurance_api.Database.{Db}
use democrance_insurance_api.Database.Deleting.{Deletion, deleted, is_protected, delete_policies}

-- The models of the repository that have a page.
pub data Page : Type 0 where
  user customer product_type rating_rule policy transition payment : Page

pub data Permission : Type 0 where
  add change remove : Permission

-- `has_add_permission`, `has_change_permission`, `has_delete_permission`: overridden on the pages of
-- history rows and payments.
unfoldable pub has_permission : Page → Permission → Bool
has_permission Page.transition permission = false
has_permission Page.payment permission = false
has_permission page permission = true

pub data AdminDeletion : Type 0 where
  gone : Db → AdminDeletion
  -- The page lists the rows that protect the policies, or those that the superuser may not delete.
  has_protected lacks_permission : AdminDeletion

abbrev pub asked : Bool → Deletion → AdminDeletion
asked lacking is_protected = has_protected
asked lacking (deleted db) = if lacking then lacks_permission else gone db

-- "Delete selected policies"
unfoldable pub delete_on_admin : (ℕ → Bool) → Db → AdminDeletion
delete_on_admin selected db =
    let told = any (λ (t : PolicyStateTransition). selected t.policy_id) db.transitions in
    asked (told && not (has_permission Page.transition Permission.remove))
      (delete_policies selected db)
