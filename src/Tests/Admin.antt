-- ===== src/Tests/Admin.antt =====
-- Requests to the administration of the sample.
use student_knowledge_hub.Prelude.{false, none, some, List, [], ◌∷◌, arith}
use student_knowledge_hub.Hub.Tables.{student, user_keyed}
use student_knowledge_hub.Admin.Model.{AdminDb}
use student_knowledge_hub.Admin.Requests.{AdminRequest, role_request, status_request, serve_admin}
use student_knowledge_hub.Admin.Users.LastAdmin.{HasAdmin, serve_admin-HasAdmin}
use student_knowledge_hub.Tests.Sample.{head_admin, hub, caches}

abbrev office : AdminDb
office = record { hub = hub; reports = []; notifications = [] }

-- The only administrator would be a student, and then inactive.
abbrev attempts : List AdminRequest
attempts = role_request 1 student (some head_admin) ∷ status_request 1 false none ∷ []

hub-HasAdmin : HasAdmin hub.users
hub-HasAdmin = record { unique = λ i. ground arith; remains = ground arith }

serve_admin-HasAdmin_example : HasAdmin (serve_admin attempts office caches).0.hub.users
serve_admin-HasAdmin_example = serve_admin-HasAdmin attempts office caches hub-HasAdmin
