-- ===== src/Query/Ast.antt =====
-- crates/pkdump-core/src/query/ast.rs: operators and the syntax tree. `Vec<Ast>` is `Asts`.
use pokedumpster.Base.{Text, codes, ℕ, suc}

pub data Op : Type 0 where
  contains eq ne lt gt le ge : Op

-- `Op::as_str`.
unfoldable pub as_str : Op → Text
as_str contains = codes ":"
as_str eq = codes "="
as_str ne = codes "!="
as_str lt = codes "<"
as_str gt = codes ">"
as_str le = codes "<="
as_str ge = codes ">="

mutual
  pub data Ast : Type 0 where
    and : Asts → Ast
    or : Asts → Ast
    not : Ast → Ast
    comparison : Text → Op → Text → Ast
    name_search : Text → Ast
    exact_name : Text → Ast

  pub data Asts : Type 0 where
    nil : Asts
    cons : Ast → Asts → Asts

-- `Vec::push`.
unfoldable pub push : Asts → Ast → Asts
push nil a = cons a nil
push (cons b bs) a = cons b (push bs a)

-- `Vec::len`.
unfoldable pub len : Asts → ℕ
len nil = 0
len (cons a as') = suc (len as')
