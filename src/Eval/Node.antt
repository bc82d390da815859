-- ===== src/Eval/Node.antt =====
-- src/nodetypes: the parse tree. A word is its text; the commands in its back quotes are left to those
-- who expand it.
use gwsh.Base.{ℕ, Bool, List, Bytes}

-- The redirections: the type of the node, the descriptor, and the text of the word, or of the here
-- document.
pub record Redirect : Type 0 where
  pub type : ℕ
  pub fd : ℕ
  pub text : Bytes

-- NCMD
pub record Command : Type 0 where
  pub linno : ℕ
  pub assign : List Bytes
  pub args : List Bytes
  pub redirect : List Redirect

-- `none` is NULL. A clause of case has its patterns, its body, and whether it falls through (NCLISTFT).
mutual
  pub data Node : Type 0 where
    none : Node
    ncmd : Command → Node
    npipe : Bool → Nodes → Node
    nredir : Node → List Redirect → Node
    nbackgnd : Node → List Redirect → Node
    nsubshell : Node → List Redirect → Node
    nand : Node → Node → Node
    nor : Node → Node → Node
    nsemi : Node → Node → Node
    nif : Node → Node → Node → Node
    nwhile : Node → Node → Node
    nuntil : Node → Node → Node
    nfor : List Bytes → Node → Bytes → Node
    ncase : Bytes → Clauses → Node
    ndefun : Bytes → Node → Node
    nnot : Node → Node

  pub data Nodes : Type 0 where
    end : Nodes
    more : Node → Nodes → Nodes

  pub data Clauses : Type 0 where
    esac : Clauses
    clause : List Bytes → Node → Bool → Clauses → Clauses
