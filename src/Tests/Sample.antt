-- ===== src/Tests/Sample.antt =====
-- A small university: one admin, one student and one moderator of the one subject, with a pending
-- material of the student.
use student_knowledge_hub.Prelude.{ℕ, true, false, none, some, [], ◌∷◌}
use student_knowledge_hub.Hub.Tables.{
  UserRole, student, moderator, admin, selected, User, University, Faculty, Subject, Hub,
}
use student_knowledge_hub.Materials.Model.{
  document, pending_review, notes, MaterialStatus, Material, MaterialFile, Db, Outside,
}

abbrev user_of : ℕ → UserRole → User
user_of id role = record {
  id = id;
  full_name = "Aziz";
  email = "a@example.uz";
  hashed_password = "old-hash";
  role = role;
  is_active = true;
  is_verified = false;
  university_id = none;
  university_changed_at = none;
  pending_university_name = none;
  university_status = selected;
}

abbrev pub head_admin : User
head_admin = user_of 1 admin

abbrev pub author : User
author = user_of 2 student

abbrev pub reviewer : User
reviewer = user_of 3 moderator

abbrev pub algebra : Subject
algebra = record {
  id = 10;
  faculty_id = 20;
  name = "Algebra";
  slug = "algebra";
  code = none;
  description = none;
}

abbrev pub mathematics : Faculty
mathematics = record { id = 20; university_id = 30; name = "Mathematics"; slug = "mathematics" }

abbrev pub national : University
national = record { id = 30; name = "National"; slug = "national" }

abbrev pub hub : Hub
hub = record {
  users = head_admin ∷ author ∷ reviewer ∷ [];
  universities = national ∷ [];
  faculties = mathematics ∷ [];
  subjects = algebra ∷ [];
  university_scopes = [];
  faculty_scopes = [];
  subject_scopes = record { id = 35; user_id = 3; target_id = 10 } ∷ [];
  audit_logs = [];
  events = [];
  next_id = 100;
}

abbrev pub material_in : MaterialStatus → Material
material_in status = record {
  id = 40;
  title = "Algebra";
  slug = "algebra";
  description = none;
  material_type = notes;
  status = status;
  subject_id = 10;
  semesters = 1 ∷ [];
  uploaded_by = 2;
  approved_by = none;
  last_reviewed_by = none;
  rejected_reason = none;
  cover_file_id = none;
  primary_file_id = some 50;
  file_count = 1;
  total_size = 7;
  download_count = 0;
  submitted_at = none;
  reviewed_at = none;
  deleted_at = none;
  updated_at = 5;
  tags = [];
}

abbrev pub lecture : MaterialFile
lecture = record {
  id = 50;
  material_id = 40;
  storage_key = 60;
  preview_storage_key = none;
  file_size = 7;
  file_ext = "pdf";
  file_kind = document;
  file_order = 1;
  is_previewable = true;
}

abbrev pub db_with : MaterialStatus → Db
db_with status = record {
  hub = hub;
  materials = material_in status ∷ [];
  files = lecture ∷ [];
  tags = [];
  review_logs = [];
  downloads = [];
}

abbrev pub db : Db
db = db_with pending_review

abbrev pub caches : Outside
caches = record {
  stored = 60 ∷ [];
  stats_summary_cached = true;
  trending_ids_cached = true;
  dashboard_cached = true;
}
