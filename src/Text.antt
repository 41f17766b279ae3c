-- ===== src/Text.antt =====
-- Conversions of text: `append_utf8` and `to_utf8` of il2cpp.cpp, `fnv1a` of photon_hooks.cpp, and the
-- digits of numbers in the lines of log.h.
pub mod Fnv
pub mod Utf8
pub mod Digits
