-- ===== src/Pipeline/Writer.antt =====
-- `IWriter` and `make_writer`: core/src/format/i_writer.hpp and writer_factory.cpp.
use collapsar.Base.{Bool, text}
use collapsar.Core.Status.{Result, ok, err, make_error, unsupported}
use collapsar.Core.Action.{Action}
use collapsar.Core.Options.{Format, zip, gzip, zstd}
use collapsar.Core.Blocks.{FilePath, PreparedFile}
use collapsar.Io.Disk.{Disk}
use collapsar.Zip.Writer.{ZipWriter, new_zip_writer}
use collapsar.Zip.Writer as ZipMethods
use collapsar.Gzip.Writer.{GzipWriter, new_gzip_writer}
use collapsar.Gzip.Writer as GzipMethods

-- The classes that implement the interface.
pub data Writer : Type 0 where
  zip_writer : ZipWriter → Writer
  gzip_writer : GzipWriter → Writer

unfoldable pub make_writer : Format → FilePath → Bool → Result Writer
make_writer zip output overwrite = ok (zip_writer (new_zip_writer output overwrite))
make_writer gzip output overwrite = ok (gzip_writer (new_gzip_writer output overwrite))
make_writer zstd output overwrite =
    err (make_error unsupported (text "Zstd writer not yet implemented"))

-- A virtual call: the method of the class, and the object that it leaves.
abbrev pub on_zip : Result (Unit {0}) × ZipWriter → Result (Unit {0}) × Writer
on_zip (r, w) = (r, zip_writer w)

abbrev pub on_gzip : Result (Unit {0}) × GzipWriter → Result (Unit {0}) × Writer
on_gzip (r, w) = (r, gzip_writer w)

unfoldable pub begin : Disk → Action Writer (Unit {0})
begin disk (zip_writer w) = on_zip (ZipMethods.begin disk w)
begin disk (gzip_writer w) = on_gzip (GzipMethods.begin disk w)

unfoldable pub write_file : Disk → PreparedFile → Action Writer (Unit {0})
write_file disk file (zip_writer w) = on_zip (ZipMethods.write_file disk file w)
write_file disk file (gzip_writer w) = on_gzip (GzipMethods.write_file file w)

unfoldable pub finish : Action Writer (Unit {0})
finish (zip_writer w) = on_zip (ZipMethods.finish w)
finish (gzip_writer w) = on_gzip (GzipMethods.finish w)
