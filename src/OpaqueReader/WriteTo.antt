-- ===== src/OpaqueReader/WriteTo.antt =====
-- internal/coder/opaquereader.go, `WriteTo`, which is `io.Copy`. The number of bytes that it returns is
-- left out. A list says how much the source would return each time it is read.
use xdr.Prelude.{ℕ, Option, none, some, List, [], ◌∷◌, ltb, if◌then◌else◌}
use xdr.Errors.{eof, Err, io_error}
use xdr.Io.{Writer}
use xdr.OpaqueReader.{OpaqueReader, read}

pub data Copied (W : Type 0) : Type 0 where
  copied : Option Err → OpaqueReader → W → Copied W
  not_ended : Copied W

-- The size of the buffer of `io.Copy`.
abbrev pub copy_size : ℕ → ℕ
copy_size n = if ltb n 32768 then (if ltb n 1 then 1 else n) else 32768

module _ {W : Type 0} ⦃io : Writer W⦄ where
  -- `io.Copy` takes the end of the source for success.
  abbrev pub ended : Option Err → OpaqueReader → W → (OpaqueReader → W → Copied W) → Copied W
  ended none o w again = again o w
  ended (some (io_error eof)) o w again = copied none o w
  ended (some e) o w again = copied (some e) o w

  abbrev pub written :
      Option Err × W → Option Err → OpaqueReader → (OpaqueReader → W → Copied W) → Copied W
  written (none, w) err o again = ended err o w again
  written (some e, w) err o again = copied (some e) o w

  abbrev pub passed_on :
      List ℕ × Option Err × OpaqueReader → W → (OpaqueReader → W → Copied W) → Copied W
  passed_on ([], err, o) w again = ended err o w again
  passed_on (b ∷ bs, err, o) w again = written (io.write (b ∷ bs) w) err o again

  unfoldable pub copy_loop : ℕ → List ℕ → OpaqueReader → W → Copied W
  unfolding read
  copy_loop size [] o w = not_ended
  copy_loop size (most ∷ more) o w = passed_on (read most size o) w (copy_loop size more)

  -- `WriteTo(w)`
  unfoldable pub write_to : List ℕ → OpaqueReader → W → Copied W
  unfolding copy_loop
  write_to mosts o w = copy_loop (copy_size o.n) mosts o w
