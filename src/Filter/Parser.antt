-- ===== src/Filter/Parser.antt =====
-- internal/filter/parser.go: the parser of filter expressions.
--
-- `rest` is tag[pos:], so `pos < length` reads "`rest` is not empty". A string that holds at most
-- one character is the byte, or `none` for "". An iteration of readFilter's loop is a function of
-- its own, `iteration`, that returns how the loop goes on; `read_filter` drives it on fuel.
pub mod Chars
pub mod Reads
pub mod Balance
pub mod Step
pub mod Iteration
pub mod Correct
pub mod Loop
