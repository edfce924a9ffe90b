-- ===== src/Parser.antt =====
-- src/http_parser.c, one child for each of its functions, and what is proved of them.
pub mod Errors
pub mod Tokens
pub mod Terminator
pub mod ContentLength
pub mod Framing
pub mod RequestLine
pub mod HeaderLine
pub mod Message
pub mod RoundTrip
pub mod Accepted
