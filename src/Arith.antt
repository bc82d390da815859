-- ===== src/Arith.antt =====
-- src/arith_yacc.c, src/arith_yacc.h and src/arith_yylex.c: shell arithmetic, $((...)).
pub mod Token
pub mod Ops
pub mod Lex
pub mod Parse
