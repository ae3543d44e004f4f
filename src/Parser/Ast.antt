-- ===== src/Parser/Ast.antt =====
-- src/parser/ast.h: the expressions. Node positions and the debug text are left out; a null pointer
-- to an expression is `no_expr`, and an operator's text is a constructor.
use seeddb.Base.{Bool, Bytes}
use seeddb.Parser.Token.{TokenValue}

-- `BinaryExpr::op_`: the texts that the parser makes, and "!=", which the executor tests for.
pub data BinaryOp : Type 0 where
  or_op and_op eq_op ne_op bang_eq_op lt_op gt_op le_op ge_op : BinaryOp
  add_op sub_op concat_op mul_op div_op mod_op : BinaryOp

-- `UnaryExpr::op_`
pub data UnaryOp : Type 0 where
  not_op neg_op plus_op : UnaryOp

-- `enum class AggregateType`
pub data AggregateType : Type 0 where
  count sum avg min max : AggregateType

-- `Expr` with its subclasses, and the lists and optional parts that these hold.
mutual
  pub data Expr : Type 0 where
    literal : TokenValue → Expr
    column_ref : Bytes → Bytes → Expr
    binary : BinaryOp → Expr → Expr → Expr
    unary : UnaryOp → Expr → Expr
    is_null_expr : Expr → Bool → Expr
    aggregate : AggregateType → OptExpr → Bool → Bool → Expr
    case_expr : Whens → OptExpr → Expr
    in_expr : Expr → Exprs → Bool → Expr
    between_expr : Expr → Expr → Expr → Bool → Expr
    like_expr : Expr → Expr → Bool → Expr
    coalesce : Exprs → Expr
    nullif : Expr → Expr → Expr
    function_call : Bytes → Exprs → Expr

  pub data OptExpr : Type 0 where
    no_expr : OptExpr
    an_expr : Expr → OptExpr

  pub data Exprs : Type 0 where
    no_exprs : Exprs
    more_exprs : Expr → Exprs → Exprs

  pub data Whens : Type 0 where
    no_whens : Whens
    more_whens : Expr → Expr → Whens → Whens
