-- ===== src/Io.antt =====
-- What the library uses of Go's package io: `io.Writer`, `io.StringWriter`, `io.Reader` as
-- `io.ReadFull` sees it, and the ways in which a call ends.
use xdr.Prelude.{ℕ, Option, none, some, List, [], ◌∷◌, ◌++◌, leb, if◌then◌else◌, length, take, drop}
use xdr.Errors.{IoError, eof, unexpected_eof, Err, io_error}

-- A call that does not return: a Go panic, an access to memory at a type that it does not hold, a
-- wait that nobody ends, or a model's fuel used up.
pub data Abort : Type 0 where
  panic wild_access blocked out_of_fuel : Abort

-- An `io.Writer` is a parameter of the library: `W` is its state, and `Write` returns its error
-- and the new state. A writer that is also an `io.StringWriter` has `write_string`.
pub record Writer (W : Type 0) : Type 0 where
  pub write : List ℕ → W → Option Err × W
  pub write_string : Option (List ℕ → W → Option Err × W)

-- The result of a Go function that writes and returns an `error`.
pub data Written (W : Type 0) : Type 0 where
  done : W → Written W
  failed : Err → W → Written W
  aborted : Abort → Written W

abbrev pub Encode : Type 0 → Type 0
Encode W = W → Written W

abbrev pub returning : {W : Type 0} → Option Err × W → Written W
returning (none, w) = done w
returning (some e, w) = failed e w

-- `if err := m(); err != nil { return err }; return n()`
infixl 5 ◌>>◌
abbrev pub then_write : {W : Type 0} → Encode W → Written W → Written W
then_write n (done w) = n w
then_write n (failed e w) = failed e w
then_write n (aborted a) = aborted a

abbrev pub ◌>>◌ : {W : Type 0} → Encode W → Encode W → Encode W
(m >> n) w = then_write n (m w)

-- An `io.Reader`, as far as `io.ReadFull` can tell: the bytes that it still delivers, and the
-- error with which it then ends.
pub record Reader : Type 0 where
  pub pending : List ℕ
  pub fault : IoError

-- `io.ReadFull` on a reader that ends before the buffer is full.
abbrev short_read : IoError → List ℕ → IoError
short_read eof [] = eof
short_read eof (b ∷ bs) = unexpected_eof
short_read e bs = e

-- The buffer after the call, the number of bytes read, the error and the reader.
pub record Filled : Type 0 where
  pub buf : List ℕ
  pub count : ℕ
  pub error : Option Err
  pub reader : Reader

-- `io.ReadFull(r, buf)`
unfoldable pub read_full : Reader → List ℕ → Filled
read_full r buf =
    let n = length buf in
    let got = length r.pending in
    if leb n got
    then record {
      buf = take n r.pending;
      count = n;
      error = none;
      reader = record r { pending = drop n r.pending };
    }
    else record {
      buf = r.pending ++ drop got buf;
      count = got;
      error = some (io_error (short_read r.fault r.pending));
      reader = record r { pending = [] };
    }

-- The result of a Go function that reads and returns a value and an `error`: the value comes with
-- an error too.
pub data Decoded {ℓ} (A : Type ℓ) : Type ℓ where
  got : A → Option Err → Reader → Decoded A
  aborted : Abort → Decoded A

abbrev pub Decode {ℓ} : Type ℓ → Type ℓ
Decode A = Reader → Decoded A

-- `return f(value), err`
abbrev pub map_decoded {ℓ κ} : {A : Type ℓ} {B : Type κ} → (A → B) → Decoded A → Decoded B
map_decoded f (got a e r) = got (f a) e r
map_decoded f (aborted x) = aborted x
