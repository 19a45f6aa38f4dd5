-- ===== src/OpaqueReader.antt =====
-- internal/coder/opaquereader.go, and the two calls of decoder.go that make such a reader: the body
-- of an opaque as a stream, whose `Close` skips what is left of the body and the padding.
pub mod Sessions
pub mod WriteTo
pub mod Passing
mod Runs
use xdr.Prelude.{
  ℕ, ◌+◌, ◌-◌, ◌%◌, Option, none, some, List, [], ◌∷◌, ◌++◌, ltb, leb, if◌then◌else◌, length, take,
  drop,
}
use Prim.Native.Nat.{min}
use xdr.Errors.{Err, IoError, eof, io_error, length_error}
use xdr.Io.{Reader, Decoded, got, aborted}
use xdr.Decoder.{decode_unsigned_int, round_up}

-- `lr` is an `io.LimitedReader` of `source` with `n` bytes left.
pub record OpaqueReader : Type 0 where
  pub source : Reader
  pub n : ℕ
  pub pad_len : ℕ

-- `padLen` is a byte.
unfoldable pub new_opaque_reader : Reader → ℕ → OpaqueReader
new_opaque_reader r len = record { source = r; n = len; pad_len = (round_up len - len) % 256 }

-- One `Read` of the source for at most `want` bytes. A reader may return fewer than it was asked
-- for: `most` is the most that it chooses to return this time.
abbrev pub read_some : ℕ → ℕ → Reader → List ℕ × Option Err × Reader
read_some most want r = elim r.pending [
  | [] ↦ ([], some (io_error r.fault), r)
  | b ∷ bs ↦
      let k = min most want in (take k (b ∷ bs), none, record r { pending = drop k (b ∷ bs) })
]

abbrev after_read : OpaqueReader → List ℕ × Option Err × Reader → List ℕ × Option Err × OpaqueReader
after_read o (bs, err, r) = (bs, err, record o { source = r; n = o.n - length bs })

-- `Read(p)` with `want` for `len(p)`: the bytes stored in `p` and the error.
unfoldable pub read : ℕ → ℕ → OpaqueReader → List ℕ × Option Err × OpaqueReader
read most want o =
    if leb o.n 0
    then ([], some (io_error eof), o)
    else after_read o (read_some most (if ltb o.n want then o.n else want) o.source)

abbrev copy_error : IoError → Option Err
copy_error eof = none
copy_error e = some (io_error e)

-- `Close()`: `io.Copy` to `ioutil.Discard` takes end of file for success.
unfoldable pub close : OpaqueReader → Option Err × OpaqueReader
close o =
    let limit = o.n + o.pad_len in
    let left = length o.source.pending in
    if leb limit left
    then (
      none,
      record o {
        source = record { pending = drop limit o.source.pending; fault = o.source.fault };
        n = 0;
      },
    )
    else (
      copy_error o.source.fault,
      record o { source = record { pending = []; fault = o.source.fault }; n = limit - left },
    )

-- `FixedOpaqueReader(len)`
unfoldable pub fixed_opaque_reader : ℕ → Reader → OpaqueReader
fixed_opaque_reader len r = new_opaque_reader r len

-- The length, and the reader of the body where there is one.
unfoldable pub opened : ℕ → Decoded ℕ → Decoded (ℕ × Option OpaqueReader)
opened max_len (got l (some e) r) = got (0, none) (some e) r
opened max_len (got l none r) =
    if ltb max_len l
    then got (l, none) (some (length_error l max_len)) r
    else got (l, some (fixed_opaque_reader l r)) none r
opened max_len (aborted a) = aborted a

-- `OpaqueReader(maxLen)`
unfoldable pub opaque_reader : ℕ → Reader → Decoded (ℕ × Option OpaqueReader)
unfolding opened
opaque_reader max_len r = opened max_len (decode_unsigned_int r)
