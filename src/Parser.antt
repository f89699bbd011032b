-- ===== src/Parser.antt =====
-- The package parser: the scanner and the recursive-descent parser of SQL.
pub mod Token
pub mod Lexer
pub mod Grammar
pub mod Statements
pub mod Print
pub mod RoundTrip
pub mod Scan
pub mod Total
