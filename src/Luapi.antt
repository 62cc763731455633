-- ===== src/Luapi.antt =====
-- internal/luapi: what the scripts of a scenario can call, as far as it is the repository's own code. The
-- Lua interpreter, which calls it, is left out.
pub mod Generate
pub mod Json
