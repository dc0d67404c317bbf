-- ===== src/Edges/FsFile.antt =====
-- edges/rs/fs/file/desc/edge.rs: the lines of a file, as they are sent.
use fractalide.Prelude.{String}

pub data FsFileDesc : Type 0 where
  start : String → FsFileDesc
  end : String → FsFileDesc
  text : String → FsFileDesc
