-- ===== src/Scanner.antt =====
-- src/lang/representation/tokens and src/lang/processors/scanner: from the bytes of a file to tokens.
pub mod Token
pub mod Loops
pub mod Next
pub mod Words
pub mod Scanned
pub mod Progress
pub mod Tokens
mod Tests
