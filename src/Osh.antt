-- ===== src/Osh.antt =====
-- a2/osh, a shell: the input handler cuts a line into tokens, the parser makes a chain of commands
-- of them, and the executor runs the chain.
pub mod Symbols
pub mod Tokens
pub mod Command
pub mod Input
pub mod Parser
pub mod Executor
pub mod Child
pub mod Shell
mod Tests
