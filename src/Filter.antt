-- ===== src/Filter.antt =====
-- Matching of translated tags against subscriptions, package internal/filter: the contract
-- (Subscription), the linear matcher (Linear), and the prefix index (Index) with its byte trie
-- (BitTrie), its trie over field values (FieldTrie) and the final ordering (Ranks).
pub mod Subscription
pub mod Linear
pub mod Entry
pub mod Found
pub mod BitTrie
pub mod FieldTrie
pub mod Ranks
pub mod Index
pub mod Adaptive
mod Tests
