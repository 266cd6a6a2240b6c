-- ===== src/Yaml.antt =====
-- core/yaml: the subset of YAML that test files are written in.
pub mod Tokens
pub mod Parser
pub mod Scalars
mod Tests
