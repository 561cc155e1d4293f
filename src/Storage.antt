-- ===== src/Storage.antt =====
-- The file storage (app/infrastructure/storage/service.py) and the checks on files (app/utils/files.py).
pub mod Signature
pub mod Local
pub mod Upload
pub mod RoundTrip
