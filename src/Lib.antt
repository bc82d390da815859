-- ===== src/Lib.antt =====
-- gwsh, a POSIX shell (src/): a model of its core logic, and the theorems that make it correct.
--
-- Parts and files.
-- - Base and its children: shared names, Boolean tests, lists and C strings. A C string is the list of
--   its bytes without the terminating NUL; reading past the last byte gives NUL.
-- - Syntax: the character classes of src/syntax.c and src/syntax.h.
-- - Intmax: intmax_t as the pattern of 64 bits, a number below 2 ^ 64, with the operations that
--   src/arith_yacc.c makes on intmax_t and uintmax_t. Intmax.Signed and Intmax.Division compare them with the
--   integers of Base.Int.
-- - MyString: atomax, number, is_number and prefix of src/mystring.c. The C library's strtoimax is a
--   parameter; `IsStrtoimax` says what is relied on.
-- - Arith: $((...)). Arith.Token holds the codes of src/arith_yacc.h, Arith.Lex the function yylex of
--   src/arith_yylex.c (`lexeme` finds a token, `took` stores it), Arith.Ops do_binop, and Arith.Parse the
--   functions primary, binop2, binop, and, or, cond, assignment and arith of src/arith_yacc.c. The static
--   variables arith_buf, yylval and last_token are the record `Parser`, which also carries the state of the
--   shell's variables, an interface (`Variables`). An error ends the run and keeps that state. The
--   functions run on fuel: one unit for each call, 8 for each byte of the text and 16 more, and
--   `out_of_fuel` is an error of the model only.
-- - Test: the builtins test and [ of src/bltin/test.c. Test.Ops has the table of operators, Test.File the
--   tests on files over the answers of stat and its like, Test.Monad the argument vector with the index
--   t_wp, where a read behind the terminating null pointer is the error `out_of_bounds`, Test.Eval the
--   parser and Test.Cmd testcmd. The fuel is 4 for each slot of the vector and 8 more.
--   Test.Ends has the proof rules for that monad.
-- - Options: src/options.c. Options.Table has the tables, Options.Set the functions setoption, minus_o and
--   options, Options.Nextopt nextopt, nextarg and endargs, Options.Getopts the getopts builtin, whose
--   result lists what it assigns, and Options.Params setparam and shiftcmd.
-- - Base.Run: a run over a state that ends with a value or an error, with the state in both cases, and its
--   proof rules.
-- - Var: src/var.c and src/var.h. Var.Name has the comparison and the hash of names, Var.Table the table of
--   chains and initvar, Var.Set setvareq, setvar and the lookups, Var.Local mklocal, pushlocalvars,
--   poplocalvars and unwindlocalvars, Var.Cmd listvars and the builtins export, readonly, local and unset.
--   A list of local variables is known by its depth in localvar_stack, and an entry of it names its variable
--   by the text before the = sign; the pointer that is not set is the error `wild_pointer`. The functions
--   that a variable calls are recorded in the list `calls`. Var.Lookup, Var.Restore, Var.Edges and
--   Var.Number have the proofs; Var.Number fills the interface of arithmetic.
-- - Expand: src/expand.c, without WITH_LOCALE. Expand.Bracket has ccmatch and the bracket expressions of
--   patterns, Expand.Pmatch pmatch, patmatch and _rmescapes: `step` is one round of the loop of pmatch over
--   the record `Pointers` of its local variables, a pointer is the rest of its string, and a pointer that
--   leaves its string is the result `reads_past_end`. The fuel is the measure of Expand.Pmatch.Measure, cubic
--   at most in the lengths, and Expand.Pmatch.Total shows that it is enough. Expand.Pmatch.Reference says
--   what a pattern means; Expand.Pmatch.Rounds, Expand.Pmatch.Correct and Expand.Pmatch.Edges have the proofs. The functions of ctype.h are a parameter.
--   Expand.Ifs has recordregion, removerecordregions and ifsbreakup, over offsets into the string; the fuel
--   is the length of a region. Expand.Ifs.Regions, Expand.Ifs.Count and Expand.Ifs.Total have the proofs.
--   Expand.Sort has expsort and msort, Expand.Sort.Sorted the proofs.
-- - Eval: src/eval.c and src/nodetypes. Eval.Node has the parse tree, Eval.Shell the variables of the
--   evaluator, what it raises, and the functions of other files that it calls (`Hooks`), Eval.Tree evaltree,
--   evalloop, evalfor, evalcase and skiploop, Eval.Builtins break, continue, return and the call of a
--   function. evaltree runs on fuel, a unit for each call and for each round of a loop; `out_of_fuel` is
--   raised by the model only, since a shell program need not end. Eval.Breaks has the proofs.
-- - Alias: src/alias.c, the table of aliases as chains by hash, with the marks of an alias in use and of a
--   dead one. A pointer to a place in a chain is a function on the rest of the chain (`at_alias`);
--   `begin_use` and `end_use` are what pushstring and popstring of src/input.c do to an alias, and an alias
--   on aliasdone is known by its name. Alias.Lookup, Alias.InUse and Alias.Valid have the proofs, and
--   Alias.Steps has the operations as steps of a state machine. Alias.Cmd has aliascmd and unaliascmd.
-- - Cd: src/cd.c, the functions updatepwd, getpwd and cdopt and the path that docd gives to chdir. The text on
--   the stack is kept with its last byte first; stat and getcwd are parameters. Fuel is one unit for each
--   byte of the name. Cd.Stacked, Cd.Walk and Cd.Names have the proofs.
-- - Redir: src/redir.c. Redir.System is the interface of the system calls, with their laws: what a
--   descriptor stands for, and how dup2, fcntl, open, pipe and close change it. Redir has openredirect,
--   dupredirect, openhere, redirect, redirectsafe, pushredir, popredir and unwindredir over the record
--   `State`, whose redirlist is the stack of the saved descriptors; unwindredir is told how many tables stay.
--   Redir.Frame, Redir.Saved, Redir.Undo and Redir.Nested have the proofs.
-- - Trap: src/trap.c. Trap.State has the variables of traps and signals, by the number of the signal,
--   Trap.Signal setsignal, ignoresig and clear_traps, Trap.Cmd decode_signum, decode_signal and trapcmd, and
--   Trap.Pending the handler onsig, dotrap and exitshell. evalstring is a parameter, and a read by a null
--   pointer is the error `null_pointer`. Trap.Frame has the proof rules, Trap.Count, Trap.Ignored,
--   Trap.Handled and Trap.Edges the proofs.
-- - Exec: src/exec.c and src/exec.h. Exec.Path has padvance, Exec.Table the chains of the hash table of
--   commands with the operations on them, where a pointer to an entry is the link of the last lookup,
--   Exec.Find find_command and the names of hashcmd, and Exec.Shellexec tryexec and shellexec. The loops over
--   a path run on fuel, a unit for each byte and one more; Exec.Find.Search shows that it is enough.
--   Exec.Path.Split, Exec.Table.Lookup, Exec.Table.Sweep, Exec.Table.Entered, Exec.Table.Maps, Exec.Table.Refine,
--   Exec.Find.Edges and Exec.Shellexec.First have the proofs.
-- - Jobs: src/jobs.c and src/jobs.h, the table of jobs. The list from curjob along prev_job is a list of
--   places in the table, and a link that is read by a null pointer is `none`. Jobs has set_curjob, freejob,
--   freejobs, resetjobs and makejob, Jobs.Names getjob, and Jobs.Wait what dowait does with a status; Jobs.Order,
--   Jobs.Table, Jobs.Place, Jobs.Make, Jobs.Wait.Status and Jobs.Wait.Kept have the proofs.
-- - Samples: runs on concrete inputs, and the theorems at inputs that meet their hypotheses.
--
-- How the parts interact: arithmetic and the test builtin read numbers through MyString, with the classes
-- of Syntax; shift reads its argument through Options.Nextopt and MyString,
-- and alias and unalias their options; the table of aliases compares and hashes names by Var.Name;
-- arithmetic reads and assigns variables through Var.Set; break and return read their argument through
-- Options.Nextopt, and the call of a function sets the parameters by Options.Params; trap reads its
-- argument through Options.Nextopt and MyString, and dotrap stops for the skipping of Eval; shellexec takes the
-- place in the path that find_command gives.
--
-- Not modelled: locales other than C; system calls, which are parameters; memory management, with the flags
-- of a variable that only say who owns its text; output, but for what a function decides to print; the
-- shell's parser, most of expansion, simple commands, pipelines and subshells, which are hooks of the
-- evaluator, and the processes of jobs.
pub mod Base
pub mod Syntax
pub mod Intmax
pub mod MyString
pub mod Arith
pub mod Test
pub mod Var
pub mod Alias
pub mod Expand
pub mod Eval
pub mod Cd
pub mod Redir
pub mod Trap
pub mod Exec
pub mod Jobs
pub mod Options
mod Samples
