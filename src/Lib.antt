-- ===== src/Lib.antt =====
-- The compiler of the eokas language, from the bytes of a source to the calls of its backend: the
-- scanner, the parser, the syntax tree, and the code generator over the model of modules in src/omis.
--
-- Parts, and the files that model them:
-- - Token: `token_t` of src/app/scanner.h and src/app/scanner.cxx, with its enumeration, its table of
--   names and `infer`. Enumerators that are words of this language have a suffix (`module_kw`).
-- - Scanner: `scanner_t` of src/app/scanner.cxx. Scanner/State has the record of its members and the
--   operations on characters, Scanner/Lexeme the methods that read one lexeme, Scanner/Scan the
--   switch of `scan`, `next_token` and `look_ahead_token`. A method takes the scanner and returns the
--   next one, or a fault. The character classes are the macros of `ascil.h` in
--   deps/eokas-base, which the scanner's tests expand to.
-- - Ast: the nodes of src/ast/nodes.h and the operators of src/ast/header.h. Each class of nodes is a
--   constructor; a `std::map` is the list of its entries. Ast/Scopes is `ast_scope_t` of
--   src/ast/object.h.
-- - Parser: `parser_t` of src/app/parser.cxx. Its state is the scanner and the error message. A
--   method is an action on that state which ends with a node, with a null pointer, or with a fault
--   (Parser/Monad). Parser/Checks has the checks of the current token, Parser/Loops the two forms of
--   the loops, and the other files the methods by what they parse: Parser/Types, Parser/Literals,
--   Parser/Functions, Parser/Exprs, Parser/Stmts, Parser/Modules.
-- - Frontend: the parser over the scanner, from the bytes of a source to a module.
-- - Omis: src/omis/model.h and src/omis/model.cpp. Omis/Bridge is the interface of the backend,
--   `omis_bridge_t` of src/omis/bridge.h; Omis/State the state of `omis_module_t`, and its methods as
--   actions that end with a result, with null or false, or with a fault; Omis/Scopes the tables of
--   symbols and the scopes, Omis/Objects the types and values, Omis/Instructions the blocks and
--   instructions, Omis/Control the statements and the branching expression, Omis/Structs the members
--   of `omis_struct_t`, Omis/Cstd and Omis/Core the modules of src/omis/x-module-cstd.cpp and
--   src/omis/x-module-core.cpp. Objects of types and values do not change, so a pointer to one is its
--   contents with an address. Omis/Steady, Omis/Interned, Omis/Symbols, Omis/Members, Omis/Indices,
--   Omis/Answers, Omis/Quiet, Omis/Declared, Omis/Listing, Omis/Names and Omis/CoreMembers
--   are about these.
-- - Coder: `omis_module_coder_t` of src/omis/x-module-coder.cpp. A lambda that the source passes to the
--   model is an action. Coder/Nodes has the code of one node from that of its parts, Coder/Encode the
--   walk over the syntax tree; Coder/Encodable says which trees have code, and Coder/Demands,
--   Coder/Parts, Coder/Loops, Coder/NodeLimits, Coder/Limits, Coder/Steady, Coder/Tables,
--   Coder/Constants, Coder/Numbers and Coder/Typing are about runs.
-- - Engine: `omis_engine_t` of src/omis/engine.cpp and `coder_t::encode` of src/app/coder.cpp, by the
--   modules under their names. A run of a module hands on the state of the backend, the `static`
--   types and the addresses that are free.
-- - Llvm: `llvm_bridge_t` of src/omis/llvm/llvm.cxx. Llvm/Api is the library LLVM as it is called, with
--   its types as trees, and Llvm/Laws what its documentation says of the values that are made;
--   Llvm/Monad has the calls as actions on the state of LLVM, Llvm/Types the types and their names,
--   Llvm/Values the constants, functions, blocks and plain instructions, Llvm/Operators the operators,
--   Llvm/Pointers the loops over pointers, and Llvm/Backend the runs of a module and the backend as a
--   `Bridge`. Llvm/Giving, Llvm/Following, Llvm/Combining, Llvm/Xor, Llvm/Masks, Llvm/Flipping and
--   Llvm/Refusing are about these, Llvm/Coding, Llvm/Answering and Llvm/Typing about the code generator over this backend.
-- - App: `eokas_main` of src/app/app.cxx, from a file to the run of its module: the parser, coder_t and
--   the backend in their order. App/Compiled is about the files that it runs.
--
-- The parser uses its scanner through Parser/Source: a state with a current token, a line and a
-- column, and `next_token`, which in a ready state uses up one of a bounded number of tokens unless
-- the current token is the end of the source. Frontend joins the scanner to it. The
-- number conversions of `String` in deps/eokas-base are the parameter `Conversions`, with no laws.
-- The code generator uses the backend through the parameter `Bridge`, a state and an answer or a fault
-- for each call; where a result needs answers, `IsAnswering` of Omis/Answers, `IsQuiet` of Omis/Quiet and
-- `IsTyping` of Coder/Numbers say which. `llvm_bridge` fills all of them, over the parameter `Llvm`, whose
-- laws are the record `IsLawful`; `IsComputing` says which numbers its values stand for. Engine joins the code generator to it by what a fresh module starts with; the
-- targets of `break` and `continue` in a fresh module are arguments, as its constructor does not set
-- them.
--
-- Faults are a read behind the terminator, a null pointer dereferenced, a function that ends without
-- a return, a call of an empty `std::function`, a cast to a class that the object is not of, a read
-- behind the end of an array, and a bound of the model reached. Bounds: a loop of
-- the scanner runs on the number of bytes left and one more, since each
-- round reads a byte; the loops of the parser, and the depth of the calls among `parse_type`,
-- `parse_expr` and `parse_stmt`, on the number of tokens left and one more, since each round and each
-- such call is made behind a token that was read. The loops over pointers run on the pointers of the
-- type and one more, since a load takes one off.
--
-- Not modelled: the node factory and the parent pointers, which only own and link the nodes; the
-- overflow of the counters of lines and columns; the order of the entries of a map; memory and the
-- depth of the call stack; pointers to what was deleted, as the `static` types of a module that failed;
-- the messages that the code generator prints; look-ups by a predicate; the library LLVM; the methods
-- of src/omis/llvm/llvm.cxx that nothing calls; the command line of src/app/app.cxx and
-- what it prints, and llvm-old.
pub mod Prelude
pub mod Token
pub mod Scanner
pub mod Ast
pub mod Parser
pub mod Frontend
pub mod Omis
pub mod Coder
pub mod Engine
pub mod Llvm
pub mod App
