-- ===== src/Lib.antt =====
-- SeedDB, a small SQL database in C++: its storage engine and its query execution, modelled and
-- verified.
--
-- The program stores rows in 4096-byte slotted pages. A row is a list of values, checked against a
-- table's schema and turned into bytes by the row serializer. A page keeps the bytes behind a
-- 64-byte header and a directory of slots. Pages are read and written through a buffer pool, which
-- holds a fixed number of them in frames and asks an LRU list for the frame to reuse. A SELECT scans
-- a table or a join of tables, keeps the rows that pass its WHERE clause, evaluates its select list
-- on them, and drops duplicates, sorts and cuts the result.
--
-- The files and the code that they are about:
--   Common/LogicalType   src/common/logical_type.h: the SQL types
--   Common/Value         src/common/value.h: a value, its accessors, `equals` and `lessThan`
--   Storage/PageId       src/storage/page_id.h and tid.h: identifiers, their order, file offsets
--   Storage/PageHeader   src/storage/page_header.h: the header and its 64-byte image
--   Storage/Page         src/storage/page.h: insertRecord, getRecord, deleteRecord, compact,
--                        serialize, deserialize
--   Storage/Schema       src/storage/schema.h and row.h: columns, name lookup, validateRow
--   Storage/RowSerializer  src/storage/row_serializer.h: both passes of serialize, deserialize
--   Storage/Lru          src/storage/buffer/lru_replacer.h and lru_replacer.cpp: Pin, Unpin,
--                        Access, Evict, Size, rebalance
--   Storage/BufferPool   src/storage/buffer/frame.h, buffer_pool.h and buffer_pool.cpp: FetchPage,
--                        NewPage, UnpinPage, FlushPage, FlushAll, the latch calls, findVictim
--   Storage/Catalog      src/storage/table.h and catalog.h: createTable, dropTable, lookup
--   Storage/CatalogMeta  src/storage/storage_manager.cpp: saveCatalogMeta and loadCatalogMeta
--   Storage/RowStore     src/storage/storage_manager.cpp: insertRow, updateRow and deleteRow
--   Storage/TableIterator  src/storage/table_iterator.h and table_iterator.cpp: the scan of a table,
--                        and createIterator of storage_manager.cpp
--   Parser/Token         src/parser/token.h: token types, values and positions
--   Parser/Lexer         src/parser/lexer.h, lexer.cpp and keywords.h: next_token, peek_token and the
--                        scans behind them
--   Parser/Ast           src/parser/ast.h: the expressions; the statements stand in Executor
--   Parser/Stream        src/parser/parser.cpp: advance, check, match and the lists
--   Parser/Expressions   src/parser/parser.cpp: parseExpression, with Loops for the levels of
--                        operators and Primary for parsePrimaryExpr; Writer is the grammar as a
--                        writer of tokens, which the parser is compared with
--   Parser/Statements    src/parser/parser.cpp: parse, parseAll and the statements, with Columns for
--                        CREATE TABLE, and Sources and Clauses for SELECT
--   Executor/Like        src/executor/executor.cpp: matchLikePattern
--   Executor/Operators   src/executor/executor.cpp: the operators of evaluateExpr on values
--   Executor/Functions   src/executor/function.h and function.cpp: the registry, the functions
--   Executor/Eval        src/executor/executor.cpp: evaluateExpr and evaluateWhereClause
--   Executor/Rows        src/executor/executor.cpp: rowsEqual, compareValues, applyDistinct,
--                        applyLimitOffset, hasNext, next
--   Executor/Joins       src/executor/executor.cpp: crossJoinRows, innerJoinRows, processJoins
--   Executor/Select      src/executor/executor.cpp: prepareSelect, projectRow, sortResultRows
--   Executor/Aggregates  src/executor/aggregate.h and executor.cpp: the accumulators, grouping,
--                        the binary operators of evaluateExprWithAggregates, and the validation of
--                        aggregate queries
--   Executor/Statements  src/executor/executor.cpp: CREATE TABLE, DROP TABLE, INSERT, UPDATE, DELETE, on
--                        the interface `TableStore` of the storage manager
--   Common/Numerics      what the program takes from the hardware and the library on numbers
--   Base                 what these share: lists, byte arrays, machine words, integers, texts
--
-- The state of a component is a record, each method a function on it. A method that changes its
-- object returns the new one; a method that may fail returns an option, and `none` also stands for
-- undefined behaviour, such as a step through a null link or an index out of range.
--
-- A byte array is a function from an offset to a byte, so that a write past the end of a page's
-- body is visible as a change at an offset past it. Words are natural numbers, with the wrap-around
-- written out as a remainder; the host is little-endian, as the code's memcpy of integers assumes
-- for its files. A string is its list of bytes. A map is a function from a key to an option.
--
-- Loops are structural: over the slots of a page, the columns of a schema, the frames of a pool, the
-- rows of a query, the nodes of an expression, the characters of a scan, or down from the count that
-- bounds them. The lexer's loop over white space and comments and the reading of all tokens have fuel,
-- one for each character that is left, and each turn takes a character. The parser's loops have
-- fuel, one for each token that is left, and so has the nesting of expressions; each turn and each
-- level of nesting takes a token, so that all of them end by their own tests.
--
-- The LRU list is kept as its two parts, before and behind the midpoint, with the node map and the
-- counters beside it; a node that is in neither part has null links. The buffer pool is modelled
-- for one thread at a time: each call runs under the latch to its end. What it uses of the page
-- manager is the interface `PageStore`, and what it relies on there is `StoreLaws`; a scan, which may
-- write several pages back, relies on `WriteLaws` too. The comparison of
-- floating-point numbers, arithmetic on them and the printing of numbers are parameters on their bit
-- patterns.
--
-- The lexer keeps the input from its position on, beside the position, the line and the column; a
-- character is a byte, and the character classes are those of the C locale. A scan gives its token or
-- its error together with the input that is left. `std::stod` and `std::stoll` are parameters.
--
-- The parser's state is the tokens from the current one on, without their places, up to the end of the
-- input or the first lexical error: `advance` reads that error as the end, and the parser goes on
-- behind no end. The messages of syntax errors are left out.
--
-- An expression is its tree. Evaluation is pure, so the model evaluates the parts of a CASE or a
-- COALESCE that the program skips, and drops them. The rows of a query are the lists that the table
-- iterators give, and `std::sort` is a parameter that permutes a list. Where a row is read behind its
-- end, which the program does not check, the model gives NULL. Signed overflow in INTEGER arithmetic
-- wraps.
--
-- Not modelled: the page and disk managers, which are file input and output; the result
-- rows of aggregate queries; the command line, the configuration file and the log; the text
-- forms that are for debugging.
pub mod Base
pub mod Common
pub mod Storage
pub mod Parser
pub mod Executor
