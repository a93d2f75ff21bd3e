-- ===== src/Filter.antt =====
-- internal/filter: the filter expressions of rules and escalations. `Types` holds the filter tree
-- and its evaluation, `Parser` the parser, `Query` the unescaping that the parser calls.
pub mod Types
pub mod Query
pub mod Parser
pub mod Congruence
pub mod Negation
