-- ===== src/OpaqueReader/Sessions.antt =====
-- internal/coder/opaquereader.go: whole sessions, from opening the reader to closing it.
use xdr.Prelude.{
  ℕ, suc, ◌-◌, ◌%◌, ◌^◌, ◌≤◌, ◌<◌, ◌≡◌, refl, ap, none, some, List, [], ◌∷◌, ◌++◌, append_assoc,
  length, take, drop, arith, length-append, drop-append, take-append-drop, ltb, if◌then◌else◌,
  length-take, length-drop, take-append_le, drop-append_le, drop-drop, le→ltb,
}
use Prim.Native.Nat.{min}
use xdr.Errors.{IoError}
use xdr.Io.{got}
use xdr.Encoder.Wire.{residual, big_endian}
use xdr.Decoder.{round_up}
use xdr.Decoder.Reads.{delivering, round_up_lem, decode_unsigned_int-Reads}
use xdr.OpaqueReader.{
  OpaqueReader, new_opaque_reader, read, close, fixed_opaque_reader, opaque_reader,
}

-- The bytes that a sequence of `Read`s returns, each given by how much the source would return and
-- by the length of its buffer.
unfoldable pub read_all : List (ℕ × ℕ) → OpaqueReader → List ℕ × OpaqueReader
read_all [] o = ([], o)
read_all ((most, want) ∷ calls) o =
    let (bs, err, o') = read most want o in
    let (more, last) = read_all calls o' in (bs ++ more, last)

-- `left` of the body, the padding and what follows are still to come.
abbrev pub At : List ℕ → List ℕ → List ℕ → IoError → OpaqueReader
At left fill rest fault = record {
  source = delivering (left ++ (fill ++ rest)) fault;
  n = length left;
  pad_len = length fill;
}

-- A read takes a front part of what is left of the body.
pub read_At :
    (most want : ℕ) (left fill rest : List ℕ) (fault : IoError)
    → (k : ℕ) × ((read most want (At left fill rest fault)).0 ≡ take k left)
      × ((read most want (At left fill rest fault)).2 ≡ At (drop k left) fill rest fault)
unfolding read
read_At most want [] fill rest fault = (0, refl, refl)
read_At most want (b ∷ bs) fill rest fault = (
  k,
  ground (arith, take-append_le k (b ∷ bs) (fill ++ rest) fits),
  ground (
    arith,
    take-append_le k (b ∷ bs) (fill ++ rest) fits,
    drop-append_le k (b ∷ bs) (fill ++ rest) fits,
    length-take k (b ∷ bs),
    length-drop k (b ∷ bs),
    fits,
  ),
)
  where
    k : ℕ
    k = min most (if ltb (suc (length bs)) want then suc (length bs) else want)

    fits : k ≤ length (b ∷ bs)
    fits = ground arith

read_all_At :
    (calls : List (ℕ × ℕ)) (left fill rest : List ℕ) (fault : IoError)
    → (more : List ℕ) × ((read_all calls (At left fill rest fault)).0 ++ more ≡ left)
      × ((read_all calls (At left fill rest fault)).1 ≡ At more fill rest fault)
unfolding read_all
read_all_At [] left fill rest fault = (left, refl, refl)
read_all_At ((most, want) ∷ calls) left fill rest fault =
    let (k, bs, o) = read_At most want left fill rest fault in
    let (more, all, last) = read_all_At calls (drop k left) fill rest fault in
    (more, rw (o, bs, append_assoc, all) (take-append-drop k left), rw o last)

close_At :
    (left fill rest : List ℕ) (fault : IoError)
    → close (At left fill rest fault)
      ≡ (none, record { source = delivering rest fault; n = 0; pad_len = length fill })
unfolding close
close_At left fill rest fault = ground (
  arith,
  length-append left (fill ++ rest),
  length-append fill rest,
  drop-drop (length fill) (length left) (left ++ (fill ++ rest)),
  drop-append left (fill ++ rest),
  drop-append fill rest,
)

-- A reader opened on an opaque gives its length; whatever reads follow, of any sizes and with
-- however short answers of the source, what they return is a front part of the body; and closing
-- then succeeds and leaves the source just behind the padding.
pub session :
    (max_len : ℕ) (body fill rest : List ℕ) (fault : IoError) (calls : List (ℕ × ℕ))
    → length body ≤ max_len
    → length body < 2 ^ 32
    → length fill ≡ residual (length body)
    → (o : OpaqueReader) × (opaque_reader max_len
          (delivering (big_endian 4 (length body) ++ (body ++ (fill ++ rest))) fault)
        ≡ got (length body, some o) none (delivering (body ++ (fill ++ rest)) fault))
      × (more : List ℕ) × ((read_all calls o).0 ++ more ≡ body)
      × ((close (read_all calls o).1).0 ≡ none)
      × ((close (read_all calls o).1).1.source ≡ delivering rest fault)
unfolding opaque_reader fixed_opaque_reader new_opaque_reader
session max_len body fill rest fault calls hl h32 hf =
    let (more, all, last) = read_all_At calls body fill rest fault in
    (
      At body fill rest fault,
      rw (
        decode_unsigned_int-Reads (body ++ (fill ++ rest)) fault (length body) h32,
        le→ltb max_len (length body) hl,
        pad,
      ),
      more,
      all,
      rw last (ap (λ p. p.0) (close_At more fill rest fault)),
      rw last (ap (λ p. p.1.source) (close_At more fill rest fault)),
    )
  where
    pad : (round_up (length body) - length body) % 256 ≡ length fill
    pad = omega (arith, round_up_lem (length body) (omega arith))
