-- ===== src/Marshal/Write.antt =====
-- internal/coder/coder.go, `Write`: by way of a `bufio.Writer`, unless the writer is buffered already.
use xdr.Prelude.{ℕ, Option, none, some}
use xdr.Errors.{Err}
use xdr.Io.{Writer, Written, done, failed, aborted, Abort, panic}
use xdr.Io as Io
use xdr.Types.{GoType}
use xdr.Tags.{Tag}
use xdr.Values.{Value}
use xdr.Bufio.{CountedWriter, Bufio, fresh, flush, bufio_writer}
use xdr.Codecs.Access.{Host}
use xdr.Codecs.EncodeReflect.{Build}
use xdr.Coder.{Coder, Building, Outcome, returned, panicked, out_of_fuel, get_base_codec}
use xdr.Marshal.{Dynamic, encode_to}

-- `D` are the writers of the types that the switch lists, and `W` are others.
pub data Destination (D W : Type 0) : Type 0 where
  buffered : D → Destination D W
  plain : W → Destination D W

pub data Sent (D W : Type 0) : Type 0 where
  sent : Destination D W → Option Err → Coder → Sent D W
  sending_aborts : Abort → Sent D W

module _ {D W E : Type 0} ⦃io : Writer D⦄ ⦃counted : CountedWriter W E⦄ (host_d : Host D)
    (host_w : Host (Bufio W E)) (build : Build) (build_codec : GoType → Tag → Building)
    (fuel : ℕ) where
  abbrev sent_buffered : Coder → Written D → Sent D W
  sent_buffered cr (done d) = sent (buffered d) none cr
  sent_buffered cr (failed e d) = sent (buffered d) (some e) cr
  sent_buffered cr (aborted a) = sending_aborts a

  abbrev pub after_flush : Coder → Option Err × Bufio W E → Sent D W
  after_flush cr (err, b) = sent (plain b.wr) err cr

  -- `if err == nil { err = bw.Flush() }`; then the buffer is reset.
  abbrev pub sent_plain : Coder → Written (Bufio W E) → Sent D W
  sent_plain cr (done b) = after_flush cr (flush b)
  sent_plain cr (failed e b) = sent (plain b.wr) (some e) cr
  sent_plain cr (aborted a) = sending_aborts a

  abbrev pub write_with : Destination D W → Value → Outcome → Sent D W
  write_with (buffered d) v (returned c cr) =
      sent_buffered cr (encode_to host_d build fuel c cr v d)
  write_with (plain w) v (returned c cr) =
      sent_plain cr (encode_to host_w build fuel c cr v (fresh w))
  write_with w v (panicked cr) = sending_aborts panic
  write_with w v out_of_fuel = sending_aborts Io.out_of_fuel

  -- `Write(w, o)`
  unfoldable pub write : Destination D W → Option Dynamic → Coder → Sent D W
  write w none cr = sending_aborts panic
  write w (some o) cr = write_with w o.value (get_base_codec build build_codec fuel o.type cr)
