-- ===== src/Tests/WorkforceRuns.antt =====
-- The theorems on staff on the example database.
use pocket_mvp_backend.Prelude.{◌≡◌, refl, some}
use pocket_mvp_backend.Schema.{StaffStatus}
use pocket_mvp_backend.Workforce.{StaffInput, update_staff, delete_staff}
use pocket_mvp_backend.Workforce.Removed.{row_of, removed_is_final}
use pocket_mvp_backend.Tests.Platform.{at}
use pocket_mvp_backend.Tests.Scene.{start, staff_member}

abbrev cook : StaffInput
cook = record { display_name = "Cook"; email = "c@d"; role = "kitchen"; status = "active" }

removed_is_final_example :
    (row_of "n" (update_staff "u" "v" "n" cook (at 100) start).1.db
      ≡ some (staff_member "n" StaffStatus.removed))
    × (row_of "n" (delete_staff "u" "v" "n" (at 100) start).1.db
        ≡ some (staff_member "n" StaffStatus.removed))
removed_is_final_example =
    removed_is_final "n" "u" "v" "n" cook (staff_member "n" StaffStatus.removed) (at 100) start refl
      refl
