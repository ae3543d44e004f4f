-- ===== src/Parser/Lexer/Keywords.antt =====
-- src/parser/keywords.h: the keyword table.
use seeddb.Base.{List, [], ◌∷◌, Option, none, some, Bytes, if◌then◌else◌, codes}
use seeddb.Common.Value.{str_equal}
use seeddb.Parser.Token.{
  TokenType, alter_kw, and_kw, as_kw, asc_kw, avg_kw, between_kw, bigint_kw, boolean_kw, by_kw,
  case_kw, char_kw, coalesce_kw, count_kw, create_kw, cross_kw, default_kw, delete_kw, desc_kw,
  distinct_kw, double_kw, drop_kw, else_kw, end_kw, exists_kw, false_lit, float_kw, foreign_kw,
  from_kw, group_kw, having_kw, if_kw, in_kw, index_kw, inner_kw, insert_kw, integer_kw, into_kw,
  is_kw, join_kw, key_kw, left_kw, like_kw, limit_kw, max_kw, min_kw, not_kw, null_lit, nullif_kw,
  offset_kw, on_kw, or_kw, order_kw, outer_kw, primary_kw, references_kw, right_kw, select_kw,
  set_kw, smallint_kw, sum_kw, table_kw, text_kw, then_kw, true_lit, unique_kw, update_kw, using_kw,
  values_kw, varchar_kw, view_kw, when_kw, where_kw,
}

-- `keywords`
abbrev pub keywords : List (Bytes × TokenType)
keywords =
    (codes "CREATE", create_kw)
    ∷ (codes "DROP", drop_kw)
    ∷ (codes "ALTER", alter_kw)
    ∷ (codes "TABLE", table_kw)
    ∷ (codes "INDEX", index_kw)
    ∷ (codes "VIEW", view_kw)
    ∷ (codes "SELECT", select_kw)
    ∷ (codes "FROM", from_kw)
    ∷ (codes "WHERE", where_kw)
    ∷ (codes "INSERT", insert_kw)
    ∷ (codes "INTO", into_kw)
    ∷ (codes "UPDATE", update_kw)
    ∷ (codes "DELETE", delete_kw)
    ∷ (codes "VALUES", values_kw)
    ∷ (codes "SET", set_kw)
    ∷ (codes "JOIN", join_kw)
    ∷ (codes "INNER", inner_kw)
    ∷ (codes "LEFT", left_kw)
    ∷ (codes "RIGHT", right_kw)
    ∷ (codes "OUTER", outer_kw)
    ∷ (codes "CROSS", cross_kw)
    ∷ (codes "ON", on_kw)
    ∷ (codes "USING", using_kw)
    ∷ (codes "GROUP", group_kw)
    ∷ (codes "BY", by_kw)
    ∷ (codes "ORDER", order_kw)
    ∷ (codes "ASC", asc_kw)
    ∷ (codes "DESC", desc_kw)
    ∷ (codes "HAVING", having_kw)
    ∷ (codes "LIMIT", limit_kw)
    ∷ (codes "OFFSET", offset_kw)
    ∷ (codes "DISTINCT", distinct_kw)
    ∷ (codes "COUNT", count_kw)
    ∷ (codes "SUM", sum_kw)
    ∷ (codes "AVG", avg_kw)
    ∷ (codes "MIN", min_kw)
    ∷ (codes "MAX", max_kw)
    ∷ (codes "EXISTS", exists_kw)
    ∷ (codes "IN", in_kw)
    ∷ (codes "BETWEEN", between_kw)
    ∷ (codes "LIKE", like_kw)
    ∷ (codes "IS", is_kw)
    ∷ (codes "AS", as_kw)
    ∷ (codes "IF", if_kw)
    ∷ (codes "CASE", case_kw)
    ∷ (codes "WHEN", when_kw)
    ∷ (codes "THEN", then_kw)
    ∷ (codes "ELSE", else_kw)
    ∷ (codes "END", end_kw)
    ∷ (codes "COALESCE", coalesce_kw)
    ∷ (codes "NULLIF", nullif_kw)
    ∷ (codes "INTEGER", integer_kw)
    ∷ (codes "INT", integer_kw)
    ∷ (codes "BIGINT", bigint_kw)
    ∷ (codes "SMALLINT", smallint_kw)
    ∷ (codes "FLOAT", float_kw)
    ∷ (codes "DOUBLE", double_kw)
    ∷ (codes "VARCHAR", varchar_kw)
    ∷ (codes "CHAR", char_kw)
    ∷ (codes "TEXT", text_kw)
    ∷ (codes "BOOLEAN", boolean_kw)
    ∷ (codes "BOOL", boolean_kw)
    ∷ (codes "PRIMARY", primary_kw)
    ∷ (codes "KEY", key_kw)
    ∷ (codes "FOREIGN", foreign_kw)
    ∷ (codes "REFERENCES", references_kw)
    ∷ (codes "UNIQUE", unique_kw)
    ∷ (codes "NOT", not_kw)
    ∷ (codes "NULL", null_lit)
    ∷ (codes "DEFAULT", default_kw)
    ∷ (codes "AND", and_kw)
    ∷ (codes "OR", or_kw)
    ∷ (codes "TRUE", true_lit)
    ∷ (codes "FALSE", false_lit)
    ∷ []

-- `keywords.find`
unfoldable pub find_keyword : List (Bytes × TokenType) → Bytes → Option TokenType
find_keyword [] text = none
find_keyword ((k, t) ∷ ks) text =
    let rest = find_keyword ks text in if str_equal k text then some t else rest
