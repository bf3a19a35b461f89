-- ===== src/Cosypy.antt =====
-- kernel/cospy.c: the CosyPy interpreter.
pub mod Lexer
pub mod State
pub mod Parser
pub mod Expr
pub mod Statement
pub mod Repl
