-- ===== src/Bufio.antt =====
-- What the library uses of Go's package bufio: a `bufio.Writer` of the default size over an
-- `io.Writer`.
pub mod Laws
use xdr.Prelude.{
  ℕ, zero, suc, ◌-◌, Bool, true, false, ◌&&◌, Option, none, some, List, [], ◌∷◌, ◌++◌,
  if◌then◌else◌, leb, length, take, drop,
}
use xdr.Errors.{Err}
use xdr.Io.{Writer}

-- What a `Write` answers: that it has taken all bytes, or how many it has taken and the error. `E` are
-- the errors that the writer can have.
pub data Taken (W E : Type 0) : Type 0 where
  took_all : W → Taken W E
  cut : ℕ → E → W → Taken W E

pub record CountedWriter (W E : Type 0) : Type 0 where
  pub write : List ℕ → W → Taken W E
  pub as_error : E → Err

-- The bytes in the buffer, the error that sticks, and the writer behind.
pub record Bufio (W E : Type 0) : Type 0 where
  pub buf : List ℕ
  pub err : Option E
  pub wr : W

abbrev default_size : ℕ
default_size = 4096

abbrev pub is_empty : List ℕ → Bool
is_empty [] = true
is_empty (b ∷ bs) = false

module _ {W E : Type 0} where
  -- `Reset(w)`
  abbrev pub fresh : W → Bufio W E
  fresh w = record { buf = []; err = none; wr = w }

  -- `Available()`
  abbrev pub room : Bufio W E → ℕ
  room b = default_size - length b.buf

  abbrev pub keep : List ℕ → Bufio W E → Bufio W E
  keep p b = record b { buf = b.buf ++ p }

  abbrev pub after :
      Option Err × Bufio W E → (Bufio W E → Option Err × Bufio W E) → Option Err × Bufio W E
  after (none, b) f = f b
  after (some e, b) f = (some e, b)

module _ {W E : Type 0} ⦃counted : CountedWriter W E⦄ where
  abbrev pub unless_stuck :
      Option E → Bufio W E → (Bufio W E → Option Err × Bufio W E) → Option Err × Bufio W E
  unless_stuck none b f = f b
  unless_stuck (some e) b f = (some (counted.as_error e), b)

  abbrev pub flushed : Bufio W E → Taken W E → Option Err × Bufio W E
  flushed b (took_all w) = (none, record { buf = []; err = none; wr = w })
  flushed b (cut n e w) =
      (some (counted.as_error e), record { buf = drop n b.buf; err = some e; wr = w })

  abbrev pub flush_buffer : Bufio W E → Option Err × Bufio W E
  flush_buffer b = if is_empty b.buf then (none, b) else flushed b (counted.write b.buf b.wr)

  -- `Flush()`
  abbrev pub flush : Bufio W E → Option Err × Bufio W E
  flush b = unless_stuck b.err b flush_buffer

  -- A large write, with nothing in the buffer, goes past it.
  abbrev pub passed : Bufio W E → Taken W E → Option Err × Bufio W E
  passed b (took_all w) = (none, record b { wr = w })
  passed b (cut n e w) = (some (counted.as_error e), record b { err = some e; wr = w })

  abbrev pub pass : List ℕ → Bufio W E → Option Err × Bufio W E
  pass p b = passed b (counted.write p b.wr)

  abbrev pub fill : List ℕ → Bufio W E → Option Err × Bufio W E
  fill p b = flush_buffer (keep (take (room b) p) b)

  -- The loop of `Write`, which may pass the buffer, and of `WriteString`, which may not. Each round
  -- but the first takes a byte at least, so that the length and one more are enough rounds.
  unfoldable pub put_rounds : Bool → ℕ → List ℕ → Bufio W E → Option Err × Bufio W E
  put_rounds may_pass zero p b = (none, keep p b)
  put_rounds may_pass (suc fuel) p b =
      let rest = put_rounds may_pass fuel (drop (room b) p) in
      if leb (length p) (room b)
      then (none, keep p b)
      else if may_pass && is_empty b.buf
      then pass p b
      else after (fill p b) rest

  unfoldable pub put_all : Bool → List ℕ → Bufio W E → Option Err × Bufio W E
  unfolding put_rounds
  put_all may_pass p b = unless_stuck b.err b (put_rounds may_pass (suc (length p)) p)

  instance abbrev pub bufio_writer : Writer (Bufio W E)
  bufio_writer = record { write = put_all true; write_string = some (put_all false) }
