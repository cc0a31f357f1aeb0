-- ===== src/Files.antt =====
-- `AtomicWrite` and `ContextReader` of internal/fileutil.
use crawlbox.Common.{◌≡◌, ◌⊎◌, Option, none, some, Text, arith}
use crawlbox.Common.Result.{Error, Result, ok, err}

-- The errors of the steps of `AtomicWrite`, in their order.
pub record Writing : Type 0 where
  pub create_temp : Option Error
  pub writing : Option Error
  pub syncing : Option Error
  pub closing : Option Error
  pub renaming : Option Error
  pub opening_dir : Option Error
  pub syncing_dir : Option Error

-- A step whose error ends the write, with the file as it then is.
abbrev pub step :
    Option Error → Option Text → Result (Unit {0}) × Option Text → Result (Unit {0}) × Option Text
step none file next = next
step (some e) file next = (err e, file)

-- `AtomicWrite`: the result, and the file at the path.
unfoldable pub atomic_write : Writing → Text → Option Text → Result (Unit {0}) × Option Text
atomic_write io bytes file = step io.create_temp file (
    step io.writing file (
      step io.syncing file (
        step io.closing file (
          step io.renaming file (
            step io.opening_dir (some bytes)
              (step io.syncing_dir (some bytes) (ok tt, some bytes)))))))

-- Whatever step fails, the file is the old one or the new one, whole; after a success it is the
-- new one.
pub atomic_write_whole :
    (io : Writing) (bytes : Text) (file : Option Text)
    → ((atomic_write io bytes file).1 ≡ file) ⊎ ((atomic_write io bytes file).1 ≡ some bytes)
unfolding atomic_write
atomic_write_whole io bytes file = ground arith

pub atomic_write-ok :
    (io : Writing) (bytes : Text) (file file' : Option Text)
    → atomic_write io bytes file ≡ (ok tt, file')
    → file' ≡ some bytes
unfolding atomic_write
atomic_write-ok io bytes file file' h = ground arith

-- `ContextReader.Read`: an ended context hides what the reader has.
unfoldable pub read_in_context : Option Error → Result Text → Result Text
read_in_context none read = read
read_in_context (some e) read = err e
