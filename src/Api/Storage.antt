-- ===== src/Api/Storage.antt =====
-- api/app/core/storage.py: the two services over the object store.
pub mod Testcases
pub mod SubmissionCode
pub mod Folders
