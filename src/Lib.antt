-- ===== src/Lib.antt =====
-- The nixd language server: a language server (lspserver/) and the analyses that it runs over Nix
-- expressions (nixd/).
--
-- A client sends edits and positions in UTF-16 units; lspserver/ keeps the text of each file in UTF-8
-- and converts between the two. nixd/ parses the text into a tree of nodes, binds its variables
-- (bindVarsStatic), and answers requests about a position by finding a node and following the tree.
--
--   Prelude   names of the libraries, Boolean tests and lists over the native numbers, integers.
--   Protocol  lspserver/include/lspserver/Protocol.h: Position, Range and their orders.
--   Text      lspserver/src/SourceCode.cpp. Units: iterateCodepoints, lspLength, measureUnits. Offset:
--             positionToOffset, offsetToPosition. Change: inferFinalNewline, applyChange. The other
--             modules are about these.
--   Drafts    lspserver/src/DraftStore.cpp. Version: increment. Store: getDraft, addDraft, removeDraft.
--   Uri       lspserver/src/URI.cpp. Chars: the character functions of LLVM that it calls, a parameter.
--             Percent: percentEncode, percentDecode. Parse: URI::toString and URI::parse. RoundTrip is
--             about these.
--   Connection  lspserver/src/Connection.cpp. Stream: the reads of POSIX as items of an input, and the
--             functions of LLVM on lengths, a parameter. Read: readLine, readStandardMessage,
--             readDelimitedMessage, readMessage. Send: sendMessage. Json: LLVM's JSON values, a
--             parameter. Dispatch: notify, call, reply and dispatch. Loop: InboundPort::loop. Framing,
--             Delivery and Total are about these.
--   Rpc       lspserver/src/LSPServer.cpp. Pending: bindReply and onReply, over the map of pending
--             calls. Handlers: onNotify and onCall. Run: a server's life as a list of calls and
--             replies. The other modules are about these.
--   Documents nixd/lib/Server/Controller.cpp. Sync: addDocument, removeDocument, the notifications
--             about documents, updateWorkspaceVersion and the pool that forkWorker keeps. The other
--             modules are about these.
--   Trees     nixd/lib/Server/ASTManager.cpp. Manager: withAST and schedParse, whose steps between two
--             takings of a lock are events in any order. The other modules are about these.
--   Answers   nixd/include/nixd/Server/Server.h. System: withParseAST, and the documents with the trees.
--             The other module is about these.
--   Diagnostics  nixd/lib/Server/Controller.cpp. Status: onEvalDiagnostic and what the client shows. The
--             other module is about these.
--   Support   nixd/include/nixd/Support/Support.h. Match: latestMatchOr and bestMatchOr. Best is about
--             these.
--   Parser    nixd/include/nixd/Parser/Prologue.cpp. Indent: stripIndentation. Formals: toFormals.
--             Attrs: addAttr. The other modules are about these.
--   Ast       nixd/include/nixd/Expr and nixd/lib/Expr. Expr: the nodes of Nodes.inc, with their
--             addresses, and the children of each, after Traverse.inc. Visit: the visitor of Expr.h
--             and getParentMap of Expr.cpp. Env: isEnvCreated, getDisplOf, searchEnvExpr and
--             searchDefinition of Expr.cpp. Bind: bindVarsStatic of each node of Nodes.cpp. Lookup:
--             lookupContain, lookupContainMin, lookupEnd and lookupStart of nixd/lib/AST/ParseAST.cpp,
--             with the ranges of ParseAST.h. Symbols: collectSymbols of Expr.cpp and completion.
--             References: prepareDefRef, searchDef, edit and rename. The other modules are about these.
--
-- How the code is read:
--   * A byte is a number, an llvm::StringRef a list of bytes, an `int` a value of ℤ; a size that is
--     put into an `int` wraps at 2^32, so the conversions to positions ask for less than 2^31 bytes.
--   * lspEncoding is fixed at UTF-16 by the code, and so it is here. Logs are left out.
--   * A result that may fail is `ok` or `err`; a change of the contents gives the contents too, since
--     a refused change may have written to them.
--   * bindVarsStatic writes into the nodes, so here it gives the tree that it leaves. nix::StaticEnv
--     belongs to Nix: its `find` and `sort` are the parameter EnvOps, with the laws that are used.
--   * A node carries its address, as the code's maps go by addresses; an address stands for one node
--     where a theorem asks for different addresses.
--   * What the parser records of positions (ParseData, nix::PosTable) is a parameter.
--   * The loop of searchEnvExpr runs on fuel, the number of entries of the parent map, with a value of
--     its own for fuel that runs out. A code point's trailing bytes are skipped by a counter.
--   * Each round of a loop over an input takes an item of it; the fuel is one more than its length.
--   * Other code that may fail (fork, the parser, a read, an action that waits for a tree) is an
--     argument that says whether it does. An action that throws loses those behind it; out of
--     withAST the exception leaves the noexcept withParseAST, and nothing runs any more.
--   * TopID is the 32 bits of an `int`, whose overflow is written as wrap-around; where IDs must not
--     come round a theorem bounds the number of calls.
--
-- Not modelled: the evaluation of Nix, what the worker processes do and how they are asked, the
-- JSON mappings, the grammar and the lexer, logging, and the command line tools; of ParseAST.cpp
-- lookupDef and the symbols and links of a document.
pub mod Answers
pub mod Ast
pub mod Connection
pub mod Diagnostics
pub mod Documents
pub mod Drafts
pub mod Parser
pub mod Prelude
pub mod Protocol
pub mod Rpc
pub mod Support
pub mod Text
pub mod Trees
pub mod Uri
