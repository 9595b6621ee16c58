-- ===== src/Web.antt =====
-- apps/web/src/lib: the client of a document, and the binding to the editor.
pub mod DeltaToEdits
pub mod Db
pub mod DocumentClient
pub mod Editor
