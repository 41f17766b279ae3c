-- ===== src/Il2cpp.antt =====
-- il2cpp.cpp and il2cpp.h: the wrappers over the runtime's exports. Metadata has the lookups of
-- classes, methods and fields, Fields the reads of an object's fields (`read_field` of
-- photon_hooks.cpp and cloud_guard.h), Strings the null checks of `to_utf8`, Resolve the binding of
-- the exports.
pub mod Metadata
pub mod Fields
pub mod Resolve
pub mod Strings
