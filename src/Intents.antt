-- ===== src/Intents.antt =====
-- Signed blocks kept before they are broadcast: the send and receive block intent stores of
-- packages/storage/src/index.ts and of packages/runtime/src/*-block-intents.ts.
pub mod Store
pub mod FirstWins
mod Tests
