-- ===== src/OpaqueReader/Runs.antt =====
-- A session with an opaque of five bytes, of which three are read, with a short answer in between.
use xdr.Encoder.Buffer.{Buffer, buffer_writer, buffer_laws}
use xdr.OpaqueReader.WriteTo.{copied, write_to, copy_loop}
use xdr.OpaqueReader.Passing.{Passes, write_to-Passes}
use xdr.OpaqueReader.Sessions.{At}
use xdr.Prelude.{ℕ, ◌≡◌, refl, none, some, List, [], ◌∷◌, ◌++◌, arith}
use xdr.Errors.{eof}
use xdr.Io.{got}
use xdr.Encoder.Wire.{big_endian}
use xdr.Decoder.Reads.{delivering}
use xdr.OpaqueReader.{OpaqueReader, read, close, opaque_reader}
use xdr.OpaqueReader.Sessions.{read_all, session}

abbrev body : List ℕ
body = 1 ∷ 2 ∷ 3 ∷ 4 ∷ 5 ∷ []

abbrev fill : List ℕ
fill = 0 ∷ 0 ∷ 0 ∷ []

abbrev calls : List (ℕ × ℕ)
calls = (1, 4) ∷ (8, 2) ∷ []

abbrev opened_reader : OpaqueReader
opened_reader = record { source = delivering (body ++ (fill ++ (9 ∷ []))) eof; n = 5; pad_len = 3 }

three_bytes : (read_all calls opened_reader).0 ≡ 1 ∷ 2 ∷ 3 ∷ []
unfolding read_all read
three_bytes = refl

session_example :
    (o : OpaqueReader) × (opaque_reader 10
        (delivering (big_endian 4 5 ++ (body ++ (fill ++ (9 ∷ [])))) eof)
      ≡ got (5, some o) none (delivering (body ++ (fill ++ (9 ∷ []))) eof))
    × (more : List ℕ) × ((read_all calls o).0 ++ more ≡ body)
    × ((close (read_all calls o).1).0 ≡ none)
    × ((close (read_all calls o).1).1.source ≡ delivering (9 ∷ []) eof)
session_example = session 10 body fill (9 ∷ []) eof calls (omega arith) (omega arith) refl

write_to-Passes_example :
    Passes buffer_laws fill
      (9 ∷ [])
      eof
      body
      (7 ∷ [])
      (write_to (2 ∷ 1 ∷ 9 ∷ 9 ∷ 9 ∷ 9 ∷ []) (At body fill (9 ∷ []) eof) (7 ∷ []))
write_to-Passes_example =
    write_to-Passes buffer_laws fill (9 ∷ []) eof (2 ∷ 1 ∷ 9 ∷ 9 ∷ 9 ∷ 9 ∷ []) body (7 ∷ [])
      (omega arith)
      (omega arith, (omega arith, (omega arith, (omega arith, (omega arith, (omega arith, tt))))))

five_passed_on :
    write_to {W = Buffer} (2 ∷ 1 ∷ 9 ∷ 9 ∷ []) opened_reader (7 ∷ [])
    ≡ copied none (At [] fill (9 ∷ []) eof) (7 ∷ 1 ∷ 2 ∷ 3 ∷ 4 ∷ 5 ∷ [])
unfolding write_to copy_loop read
five_passed_on = refl
