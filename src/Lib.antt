-- ===== src/Lib.antt =====
-- A verification library of goyang, a YANG parser and compiler written in Go.
--
-- The program reads YANG source text into tokens (pkg/yang/lex.go) and statements
-- (pkg/yang/parse.go), builds modules and a syntax tree from them, resolves types, and
-- derives entries that the command prints in several formats. This library models its
-- self-contained parts:
--
-- - Number, of pkg/yang/types_builtin.go: `Number` as a record of absolute value, fraction digits
--   and sign. Number.antt has Less (`less`), Equal, Trunc, frac, addQuantum, Int, FromInt and
--   FromUint; Number/Text.antt has String, ParseInt and ParseDecimal. Values are natural numbers
--   with the wrap-around of uint64, uint8 and int64 written out.
-- - Range, of the same file: `YRange`, `YangRange` and its methods, coalesce, and in
--   Range/Text.antt parseChildRanges and its callers. Range/Spec.antt says what a list of ranges
--   holds, on the scale of Number/Scale.antt, where a number is a count of 10^-18.
-- - Enum, of the same file: `EnumType`. The Go maps are association lists, and a method that
--   changes the receiver returns the new state or an error.
-- - Kind, of pkg/yang/yangtype.go: `TypeKind` and the two maps between kinds and names.
-- - Lexer, of pkg/yang/lex.go: Lexer.antt has the lexer's state and the operations on its cursor,
--   Lexer/States.antt the state functions and NextToken. The channel is a list that drops a token
--   when it holds eight; the debug output is off. Lexer/Potential.antt says how much is left to
--   read, and the modules beside it what each state function uses up.
-- - Parser, of pkg/yang/parse.go: `Statement` with the list of its substatements, the parser with
--   its stack of tokens and its lexer, and in Parser/Grammar.antt nextStatement and Parse. Both
--   write to one list of messages. Parser/Returns.antt has the calculus by which Parse is shown to
--   return.
-- - CamelCase, of pkg/yang/camelcase.go: the two conversions of names, byte by byte.
-- - Indent, of pkg/indent/indent.go: String, Bytes and the writer `iw`, whose underlying writer is
--   a parameter; a `bytes.Buffer` is the instance in Indent/Chunks.antt.
-- - YangType, of pkg/yang/yangtype.go: `YangType` with the types of a union, Equal, whose comparison
--   of enumerations by the package `cmp` is a parameter, and the table of base types.
-- - Files, of pkg/yang/file.go: the search path, findInDir and findFile, with the contents of files and
--   the lists of directories as two functions. The recursion into directories is on fuel.
-- - Modules, of pkg/yang/modules.go, Module of yang.go and lookups of node.go: a store of modules, the
--   maps by name, FindModule, FindModuleByNamespace, include. What a name reads is a parameter.
-- - Identity, of pkg/yang/identity.go: a heap of identities, the dictionary, and the passes of
--   resolveIdentities; addChildren is on fuel, for which a rank of the identities is enough.
-- - Entry, of pkg/yang/entry.go: an entry is a tree and its parent the entry that holds it, so Find and
--   ReadOnly take an entry with its parents up to the root. The input and the output of an RPC, which
--   duplicates share, have the parent that the RPC was made with: the RPC has a number, and Find takes
--   the places of these numbers. The map of children is a list of keys and trees. Entry/Tree has children, errors, merge and FixChoice; Entry/Find the loop of Find;
--   Entry/Deviate the statements of a deviation on the entry that it names; Entry/Elements the bounds
--   of lists; Entry/Errors the order of error messages; Entry/Augment.antt the augments and the loop of
--   Process that applies them, over a state of all entries.
-- - Restrict, of pkg/yang/types.go: what a type statement adds to a copy of the type below. Restrict.antt
--   has the steps of Type.resolve up to the members of enumerations and bit fields, on values;
--   Restrict/Patterns.antt has the patterns and the types of a union on a heap of arrays, since a
--   copy shares them. findIdentityBase, syntax.Parse and the growth of arrays are arguments.
-- - Typedefs, of pkg/yang/types.go: the dictionary of typedefs by node, and the lookup of the name of
--   a type, on the store of modules; the nodes above a type are a list. Typedefs/Resolve.antt has the
--   recursion of resolve through typedefs, types and members of unions, on fuel, over the steps that
--   Typedefs/Steps.antt defines.
-- - Base: shared helpers. Base/Strings.antt and Base/Strconv.antt are what the program uses of
--   Go's packages `strings` and `strconv`, over the bytes of a text.
--
-- Bounds. `strconv.FormatUint` makes a round for each digit; its fuel is one more than the number,
-- and each round divides it by ten. NextToken and the functions of the parser have fuel, since the
-- lexer goes on until a token is there; how much is enough is a theorem.
-- The searches of directories, addChildren, include and the resolution of typedefs recurse along
-- directories, values, modules and typedefs that may have cycles, and the loop over augments goes on
-- while it applies some, so they have fuel too, and none where it runs out. All other loops are
-- structural recursions on the text, list or tree that they walk.
--
-- Not modelled: the text of error messages, which are values of a data type here with the data
-- they mention; float64 (FromFloat, Frac); white space beyond ASCII in strings.TrimSpace; pow10
-- of 64 or more, where Trunc panics in Go; the root of a resolved type; the conversion of the
-- syntax tree into entries, augments and groupings; and the parts of the program that work by
-- reflection, walk the file system or print output formats.
pub mod Base
pub mod Number
pub mod Range
pub mod Typedefs
pub mod Restrict
pub mod Enum
pub mod Kind
pub mod YangType
pub mod Lexer
pub mod Parser
pub mod Files
pub mod Modules
pub mod Identity
pub mod Entry
pub mod CamelCase
pub mod Indent
mod Tests
