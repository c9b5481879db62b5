-- ===== src/Answers.antt =====
-- nixd/lib/Server/Controller.cpp and nixd/include/nixd/Server/Server.h: the requests that wait for
-- the tree of a document, with the documents and the parser.
mod System
mod Parsed
mod Tests
