-- ===== src/Test/Ops.antt =====
-- src/bltin/test.c: the tokens, the table of operators and its look-up.
pub mod Table
use gwsh.Base.{
  ℕ, Bool, true, false, Option, none, some, List, [], ◌∷◌, Bytes, String, codes, bytes_eq,
  if◌then◌else◌,
}

-- enum token
pub data Token : Type 0 where
  eoi filrd filwr filex filexist filreg fildir filcdev filbdev filfifo filsock filsym filgz : Token
  filtt filsuid filsgid filstck filnt filot fileq filuid filgid : Token
  strez strnz streq strne strlt strgt : Token
  inteq intne intge intgt intle intlt : Token
  unot band bor lparen rparen operand : Token

-- enum token_types
pub data OpType : Type 0 where
  unop binop bunop bbinop paren : OpType

-- struct t_op
pub record Op : Type 0 where
  pub op_text : Bytes
  pub op_num : Token
  pub op_type : OpType

abbrev entry : String → Token → OpType → Op
entry text num type = record { op_text = codes text; op_num = num; op_type = type }

unfoldable pub ops : List Op
ops =
    entry "-r" filrd unop
    ∷ entry "-w" filwr unop
    ∷ entry "-x" filex unop
    ∷ entry "-e" filexist unop
    ∷ entry "-f" filreg unop
    ∷ entry "-d" fildir unop
    ∷ entry "-c" filcdev unop
    ∷ entry "-b" filbdev unop
    ∷ entry "-p" filfifo unop
    ∷ entry "-u" filsuid unop
    ∷ entry "-g" filsgid unop
    ∷ entry "-k" filstck unop
    ∷ entry "-s" filgz unop
    ∷ entry "-t" filtt unop
    ∷ entry "-z" strez unop
    ∷ entry "-n" strnz unop
    ∷ entry "-h" filsym unop
    ∷ entry "-O" filuid unop
    ∷ entry "-G" filgid unop
    ∷ entry "-L" filsym unop
    ∷ entry "-S" filsock unop
    ∷ entry "=" streq binop
    ∷ entry "!=" strne binop
    ∷ entry "<" strlt binop
    ∷ entry ">" strgt binop
    ∷ entry "-eq" inteq binop
    ∷ entry "-ne" intne binop
    ∷ entry "-ge" intge binop
    ∷ entry "-gt" intgt binop
    ∷ entry "-le" intle binop
    ∷ entry "-lt" intlt binop
    ∷ entry "-nt" filnt binop
    ∷ entry "-ot" filot binop
    ∷ entry "-ef" fileq binop
    ∷ entry "!" unot bunop
    ∷ entry "-a" band bbinop
    ∷ entry "-o" bor bbinop
    ∷ entry "(" lparen paren
    ∷ entry ")" rparen paren
    ∷ []

unfoldable pub find_op : Bytes → List Op → Option Op
find_op s [] = none
find_op s (op ∷ rest) = if bytes_eq s op.op_text then some op else find_op s rest

unfoldable pub getop : Bytes → Option Op
unfolding find_op ops bytes_eq
getop s = find_op s ops

abbrev pub is_type : OpType → Option Op → Bool
is_type t none = false
is_type unop (some op) = elim op.op_type [ unop ↦ true | _ ↦ false ]
is_type binop (some op) = elim op.op_type [ binop ↦ true | _ ↦ false ]
is_type bunop (some op) = elim op.op_type [ bunop ↦ true | _ ↦ false ]
is_type bbinop (some op) = elim op.op_type [ bbinop ↦ true | _ ↦ false ]
is_type paren (some op) = elim op.op_type [ paren ↦ true | _ ↦ false ]
