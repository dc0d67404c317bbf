-- ===== src/Edges/FsPath.antt =====
-- edges/rs/fs/path/edge.rs, edges/rs/fs/path/option/edge.rs and edges/rs/fs/file/error/edge.rs: paths.
use fractalide.Prelude.{String, Option}

pub record FsPath : Type 0 where
  pub path : String

pub record FsPathOption : Type 0 where
  pub path : Option String

pub record FsFileError : Type 0 where
  pub path : String
