-- ===== src/Edges.antt =====
-- edges/rs: the message types that the nodes of the program exchange.
pub mod CoreGraph
pub mod CoreLexical
pub mod CoreAction
pub mod FsFile
pub mod FsPath
