-- ===== src/Parser/Token.antt =====
-- src/parser/token.h: the token types and values.
use seeddb.Base.{ℕ, Bool, Bytes}

-- `TokenValue`: an `int64_t` and a `double` by their bit patterns.
pub data TokenValue : Type 0 where
  no_value : TokenValue
  int_value float_value : ℕ → TokenValue
  string_value : Bytes → TokenValue
  bool_value : Bool → TokenValue

-- `enum class TokenType`
pub data TokenType : Type 0 where
  create_kw drop_kw alter_kw table_kw index_kw view_kw : TokenType
  select_kw from_kw where_kw insert_kw into_kw update_kw delete_kw values_kw set_kw : TokenType
  join_kw inner_kw left_kw right_kw outer_kw cross_kw on_kw using_kw : TokenType
  group_kw by_kw order_kw asc_kw desc_kw having_kw limit_kw offset_kw distinct_kw : TokenType
  count_kw sum_kw avg_kw min_kw max_kw : TokenType
  exists_kw in_kw between_kw like_kw is_kw as_kw if_kw : TokenType
  case_kw when_kw then_kw else_kw end_kw coalesce_kw nullif_kw : TokenType
  integer_kw bigint_kw smallint_kw float_kw double_kw : TokenType
  varchar_kw char_kw text_kw boolean_kw : TokenType
  primary_kw key_kw foreign_kw references_kw unique_kw not_kw null_lit default_kw : TokenType
  and_kw or_kw true_lit false_lit : TokenType
  integer_lit float_lit string_lit identifier : TokenType
  plus minus star slash percent : TokenType
  eq ne lt gt le ge concat : TokenType
  lparen rparen lbracket rbracket comma semicolon dot : TokenType
  end_of_input error : TokenType

-- `Location`
pub record Location : Type 0 where
  pub line : ℕ
  pub column : ℕ
  pub start : ℕ
  pub length : ℕ

-- `Token`
pub record Token : Type 0 where
  pub type : TokenType
  pub value : TokenValue
  pub loc : Location
