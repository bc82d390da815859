-- ===== src/Options.antt =====
-- src/options.c and src/options.h: the shell's options and positional parameters, and the parsing of
-- builtin commands' options.
pub mod Table
pub mod Set
pub mod Nextopt
pub mod Getopts
pub mod Params
