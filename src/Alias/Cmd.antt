-- ===== src/Alias/Cmd.antt =====
-- src/alias.c: the builtins alias and unalias. What they print is in their result.
use gwsh.Base.{
  ℕ, zero, suc, ◌+◌, ◌≡◌, ◌∙◌, ap, refl, true, Option, none, some, List, [], ◌∷◌, ◌++◌, Bytes, ◌==◌,
  if◌then◌else◌, codes,
}
use gwsh.Options.Nextopt.{Reader, Opt, nextopt}
use gwsh.Var.Name.{varequal}
use gwsh.Alias.{Alias, Aliases, atabsize, find, setalias, unalias, rmaliases}
use gwsh.Alias.Lookup.{put, setalias_lem}

-- printalias, and the message on standard error
pub data Line : Type 0 where
  shown : Alias → Line
  not_found : Bytes → Line

-- The status, what is printed, and the table.
pub record Ran : Type 0 where
  pub status : ℕ
  pub printed : List Line
  pub aliases : Aliases

-- The builtins end with an error of nextopt, too.
pub data Finished : Type 0 where
  ran : Ran → Finished
  illegal_option no_arg : ℕ → Finished

-- strchr(n + i, '=') + 1, as an index
unfoldable pub behind_eq : ℕ → Bytes → Option ℕ
behind_eq i [] = none
behind_eq i (c ∷ s) = let rest = behind_eq (i + 1) s in if c == b'=' then some (i + 1) else rest

-- The first byte may be `=`.
abbrev pub value_at : Bytes → Option ℕ
value_at [] = none
value_at (c ∷ s) = behind_eq 1 s

abbrev show_found : Bytes → Option Alias → Ran → Ran
show_found n none r = record r { status = 1; printed = r.printed ++ not_found n ∷ [] }
show_found n (some ap) r = record r { printed = r.printed ++ shown ap ∷ [] }

abbrev alias_value : Bytes → Option ℕ → Ran → Ran
alias_value n none r = show_found n (find n r.aliases) r
alias_value n (some namelen) r = record r { aliases = setalias n namelen r.aliases }

-- the body of the loop of aliascmd
abbrev alias_one : Bytes → Ran → Ran
alias_one n r = alias_value n (value_at n) r

unfoldable pub alias_each : List Bytes → Ran → Ran
unfolding behind_eq
alias_each [] r = r
alias_each (n ∷ argv) r = alias_each argv (alias_one n r)

abbrev show_chain : List Alias → List Line
show_chain [] = []
show_chain (ap ∷ aps) = shown ap ∷ show_chain aps

-- The chains from the i-th on, k of them.
unfoldable pub show_all : ℕ → ℕ → Aliases → List Line
show_all zero i t = []
show_all (suc k) i t = show_chain (t.atab i) ++ show_all k (i + 1) t

abbrev alias_argv : List Bytes → Aliases → Ran
alias_argv [] t = record { status = 0; printed = show_all atabsize 0 t; aliases = t }
alias_argv (n ∷ argv) t = alias_each (n ∷ argv) (record { status = 0; printed = []; aliases = t })

abbrev alias_opt : Opt → Aliases → Finished
alias_opt (Opt.option c r) t = ran (alias_argv r.argptr t)
alias_opt (Opt.at_end r) t = ran (alias_argv r.argptr t)
alias_opt (Opt.illegal_option c) t = illegal_option c
alias_opt (Opt.no_arg c) t = no_arg c

-- nextopt reads no option here.
unfoldable pub aliascmd : Reader → Aliases → Finished
unfolding nextopt alias_each show_all
aliascmd args t = alias_opt (nextopt [] args) t

abbrev unalias_one : Bytes → Ran → Ran
unalias_one n r =
    let (s, t) = unalias n r.aliases in
    if s == 0
    then record r { aliases = t }
    else record { status = 1; printed = r.printed ++ not_found n ∷ []; aliases = t }

unfoldable pub unalias_each : List Bytes → Ran → Ran
unalias_each [] r = r
unalias_each (n ∷ argv) r = unalias_each argv (unalias_one n r)

abbrev unalias_opt : Opt → Aliases → Finished
unalias_opt (Opt.option c r) t = ran (record { status = 0; printed = []; aliases = rmaliases t })
unalias_opt (Opt.at_end r) t =
    ran (unalias_each r.argptr (record { status = 0; printed = []; aliases = t }))
unalias_opt (Opt.illegal_option c) t = illegal_option c
unalias_opt (Opt.no_arg c) t = no_arg c

-- The one option is -a, which ends the builtin.
unfoldable pub unaliascmd : Reader → Aliases → Finished
unfolding nextopt unalias_each
unaliascmd args t = unalias_opt (nextopt (codes "a") args) t

-- A definition and then the name that it defines: the alias is printed with the text just given, and
-- the status is 0.
pub alias_each_lem :
    (n m : Bytes) (namelen : ℕ) (t : Aliases)
    → value_at n ≡ some namelen
    → value_at m ≡ none
    → varequal m n ≡ true
    → alias_each (n ∷ m ∷ []) (record { status = 0; printed = []; aliases = t }) ≡ record {
      status = 0;
      printed = shown (put n namelen (find n t)) ∷ [];
      aliases = setalias n namelen t;
    }
unfolding alias_each
alias_each_lem n m namelen t hn hm e =
    let found : find m (setalias n namelen t) ≡ some (put n namelen (find n t)) =
      setalias_lem m n namelen t
      ∙ ap (λ b. if b then some (put n namelen (find n t)) else find m t) e in
    rw (hn, hm, found) refl
