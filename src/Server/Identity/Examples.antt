-- ===== src/Server/Identity/Examples.antt =====
-- An enrollment and its credentials: tests and instances.
use time_weaver.Prelude.{
  ℕ, ◌≤◌, ◌≡◌, refl, none, some, List, [], ◌∷◌, ok, error, arith, nat_comparable,
}
use time_weaver.Server.Database.{find_by, update_where}
use time_weaver.Server.Identity.{
  IdentityStore, CredentialIssue, enrollment_token_invalid, invalid_token,
}
use time_weaver.Server.Identity.Access.{enroll, rotate, verify_access, DeviceIdentity}
use time_weaver.Server.Identity.Steps.{Step, take_step, take_steps}
use time_weaver.Server.Identity.Credentials.{live, rotate-once}
use time_weaver.Server.Identity.SingleAccess.{verify_access-single}
use time_weaver.Server.Identity.Enrollments.{enroll-once}

abbrev invited : IdentityStore
invited = record {
  groups = record { group_id = 1; status = "active" } ∷ [];
  enrollments =
      record {
        enrollment_id = "i";
        token_hash = "enr";
        device_name = none;
        group_id = 1;
        created_at = 0;
        expires_at = 3600;
        used_at = none;
        used_by_device_id = none;
        revoked_at = none;
      }
      ∷ [];
  devices = [];
  credentials = [];
  next_device = 4;
  next_credential = 9;
}

abbrev enrolled : IdentityStore
enrolled = record {
  groups = record { group_id = 1; status = "active" } ∷ [];
  enrollments =
      record {
        enrollment_id = "i";
        token_hash = "enr";
        device_name = none;
        group_id = 1;
        created_at = 0;
        expires_at = 3600;
        used_at = some 100;
        used_by_device_id = some 4;
        revoked_at = none;
      }
      ∷ [];
  devices =
      record {
        device_id = 4;
        group_id = 1;
        device_name = "pc";
        status = "active";
        version = none;
        last_login_at = 100;
      }
      ∷ [];
  credentials =
      record {
        credential_id = 9;
        device_id = 4;
        token_hash = "r1";
        issued_at = 100;
        expires_at = 7776100;
        revoked_at = none;
      }
      ∷ [];
  next_device = 5;
  next_credential = 10;
}

abbrev issue : CredentialIssue
issue = record {
  credential_id = 9;
  device_id = 4;
  device_name = "pc";
  access_expires_at = 1000;
  refresh_expires_at = 7776100;
}

enrolls_pc : enroll "enr" "pc" none "r1" 15 90 100 invited ≡ ok (issue, enrolled)
unfolding enroll find_by update_where
enrolls_pc = refl

abbrev later : List (Step × ℕ)
later = (Step.issues "j" "enr" none 1 24, 200) ∷ (Step.rotates "r1" "r2" 15 90, 300) ∷ []

enroll-once_example :
    enroll "enr" "laptop" none "r9" 15 90 400 (take_steps later enrolled)
    ≡ error enrollment_token_invalid
enroll-once_example =
    enroll-once "enr" "pc" "laptop" none none "r1" "r9" 15 90 100 400 invited enrolled issue later
      enrolls_pc

abbrev rotated : IdentityStore
rotated = record enrolled {
  credentials =
      record {
        credential_id = 9;
        device_id = 4;
        token_hash = "r1";
        issued_at = 100;
        expires_at = 7776100;
        revoked_at = some 300;
      }
      ∷ record {
        credential_id = 10;
        device_id = 4;
        token_hash = "r2";
        issued_at = 300;
        expires_at = 7776300;
        revoked_at = none;
      }
      ∷ [];
  next_credential = 11;
}

abbrev reissue : CredentialIssue
reissue = record {
  credential_id = 10;
  device_id = 4;
  device_name = "pc";
  access_expires_at = 1200;
  refresh_expires_at = 7776300;
}

rotates_pc : rotate "r1" "r2" 15 90 300 enrolled ≡ ok (reissue, rotated)
unfolding rotate find_by update_where
rotates_pc = refl

rotate-once_example :
    rotate "r1" "r3" 15 90 500 (take_steps ((Step.rotates "r2" "r4" 15 90, 400) ∷ []) rotated)
    ≡ error invalid_token
rotate-once_example =
    rotate-once "r1" "r2" "r3" 15 90 300 15 90 500 enrolled rotated reissue
      ((Step.rotates "r2" "r4" 15 90, 400) ∷ []) rotates_pc

abbrev pc : DeviceIdentity
pc = record { device_id = 4; device_name = "pc"; credential_id = 10 }

granted :
    verify_access 10 4 1000 (take_steps ((Step.rotates "r1" "r2" 15 90, 300) ∷ []) enrolled)
    ≡ some pc
unfolding verify_access rotate find_by update_where take_step
granted = refl

revoked :
    verify_access 9 4 1000 (take_steps ((Step.rotates "r1" "r2" 15 90, 300) ∷ []) enrolled) ≡ none
unfolding verify_access rotate find_by update_where take_step
revoked = refl

one_credential : (d : ℕ) → live d enrolled.credentials ≤ 1
one_credential d = unfold live in ground arith

verify_access-single_example :
    verify_access 9 4 1000 (take_steps ((Step.rotates "r1" "r2" 15 90, 300) ∷ []) enrolled) ≡ none
verify_access-single_example =
    verify_access-single enrolled ((Step.rotates "r1" "r2" 15 90, 300) ∷ []) 10 9 4 1000 1000 pc
      one_credential granted refl
