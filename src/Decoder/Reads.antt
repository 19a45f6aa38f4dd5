-- ===== src/Decoder/Reads.antt =====
-- internal/coder/decoder.go and opaquereader.go: what each call makes of input in the wire format.
use xdr.Prelude.{
  ℕ, ◌+◌, ◌-◌, ◌*◌, ◌/◌, ◌^◌, ◌≤◌, ◌<◌, ◌≡◌, refl, ◌∙◌, Bool, true, false, none, List, [], ◌∷◌,
  ◌++◌, append_assoc, if◌then◌else◌, length, replicate, arith, le→ltb, length-append, take-append,
  drop-append, length-replicate, ◌==◌,
}
use xdr.Prelude.Bits.{bit_or-add, and_not_three}
use xdr.Errors.{IoError}
use xdr.Io.{Reader, read_full, got}
use xdr.Encoder.Wire.{big_endian, residual}
use xdr.Decoder.{
  be_uint32, be_uint64, decode_unsigned_int, decode_unsigned_hyper, decode_bool, round_up,
  opaque_body, opaque_after, decode_opaque, decode_fixed_opaque, decode_string, decode_fixed_string,
}

-- A reader with `bs` still to come.
abbrev pub delivering : List ℕ → IoError → Reader
delivering bs fault = record { pending = bs; fault = fault }

pub read_full-append :
    (buf bs rest : List ℕ) (fault : IoError)
    → length buf ≡ length bs
    → read_full (delivering (bs ++ rest) fault) buf
      ≡ record { buf = bs; count = length bs; error = none; reader = delivering rest fault }
unfolding read_full
read_full-append buf bs rest fault h =
    ground (arith, length-append bs rest, take-append bs rest, drop-append bs rest)

pub round_up_lem : (n : ℕ) → n + 3 < 2 ^ 64 → round_up n ≡ (n + 3) / 4 * 4
unfolding round_up
round_up_lem n h = and_not_three (n + 3) h

be_uint32_lem :
    (a b c d : ℕ)
    → b < 256
    → c < 256
    → d < 256
    → be_uint32 (a ∷ b ∷ c ∷ d ∷ []) ≡ ((a * 256 + b) * 256 + c) * 256 + d
unfolding be_uint32
be_uint32_lem a b c d hb hc hd = ground (
  arith,
  bit_or-add 24 a (b * 2 ^ 16) (omega arith),
  bit_or-add 16 (a * 256 + b) (c * 2 ^ 8) (omega arith),
  bit_or-add 8 ((a * 256 + b) * 256 + c) d (omega arith),
)

be_uint64_lem :
    (a b c d e f g h : ℕ)
    → b < 256
    → c < 256
    → d < 256
    → e < 256
    → f < 256
    → g < 256
    → h < 256
    → be_uint64 (a ∷ b ∷ c ∷ d ∷ e ∷ f ∷ g ∷ h ∷ [])
      ≡ ((((((a * 256 + b) * 256 + c) * 256 + d) * 256 + e) * 256 + f) * 256 + g) * 256 + h
unfolding be_uint64
be_uint64_lem a b c d e f g h hb hc hd he hf hg hh =
    let ab : ℕ = a * 256 + b in
    let abc : ℕ = ab * 256 + c in
    let abcd : ℕ = abc * 256 + d in
    let abcde : ℕ = abcd * 256 + e in
    let abcdef : ℕ = abcde * 256 + f in
    ground (
      arith,
      bit_or-add 56 a (b * 2 ^ 48) (omega arith),
      bit_or-add 48 ab (c * 2 ^ 40) (omega arith),
      bit_or-add 40 abc (d * 2 ^ 32) (omega arith),
      bit_or-add 32 abcd (e * 2 ^ 24) (omega arith),
      bit_or-add 24 abcde (f * 2 ^ 16) (omega arith),
      bit_or-add 16 abcdef (g * 2 ^ 8) (omega arith),
      bit_or-add 8 (abcdef * 256 + g) h (omega arith),
    )

pub be_uint32-big_endian : (x : ℕ) → x < 2 ^ 32 → be_uint32 (big_endian 4 x) ≡ x
be_uint32-big_endian x h =
    be_uint32_lem _ _ _ _ (omega arith) (omega arith) (omega arith) ∙ omega arith

pub be_uint64-big_endian : (x : ℕ) → x < 2 ^ 64 → be_uint64 (big_endian 8 x) ≡ x
be_uint64-big_endian x h =
    be_uint64_lem _ _ _ _ _ _ _ _ (omega arith) (omega arith) (omega arith) (omega arith)
      (omega arith) (omega arith) (omega arith)
    ∙ omega arith

pub opaque_after-body :
    (max_int max_len l : ℕ) (r : Reader)
    → 0 < l
    → l ≤ max_len
    → opaque_after max_int max_len (got l none r) ≡ opaque_body max_int l r
unfolding opaque_after
opaque_after-body max_int max_len l r pos h = ground arith

module _ (rest : List ℕ) (fault : IoError) where
  pub decode_unsigned_int-Reads :
      (x : ℕ)
      → x < 2 ^ 32
      → decode_unsigned_int (delivering (big_endian 4 x ++ rest) fault)
        ≡ got x none (delivering rest fault)
  unfolding decode_unsigned_int
  decode_unsigned_int-Reads x h =
      rw (
        read_full-append (replicate 4 0) (big_endian 4 x) rest fault refl,
        be_uint32-big_endian x h,
      )

  pub decode_unsigned_hyper-Reads :
      (x : ℕ)
      → x < 2 ^ 64
      → decode_unsigned_hyper (delivering (big_endian 8 x ++ rest) fault)
        ≡ got x none (delivering rest fault)
  unfolding decode_unsigned_hyper
  decode_unsigned_hyper-Reads x h =
      rw (
        read_full-append (replicate 8 0) (big_endian 8 x) rest fault refl,
        be_uint64-big_endian x h,
      )

  pub decode_bool-Reads :
      (b : Bool)
      → decode_bool (delivering (big_endian 4 (if b then 1 else 0) ++ rest) fault)
        ≡ got b none (delivering rest fault)
  unfolding decode_bool
  decode_bool-Reads true = rw (decode_unsigned_int-Reads 1 (omega arith))
  decode_bool-Reads false = rw (decode_unsigned_int-Reads 0 (omega arith))

  skip_fill :
      (bs fill : List ℕ)
      → (if length fill == 0
          then got bs none (delivering (fill ++ rest) fault)
          else got bs
              (read_full (delivering (fill ++ rest) fault) (replicate (length fill) 0)).error
              (read_full (delivering (fill ++ rest) fault) (replicate (length fill) 0)).reader)
        ≡ got bs none (delivering rest fault)
  skip_fill bs [] = refl
  skip_fill bs (b ∷ fill) =
      rw
        (read_full-append (replicate (length (b ∷ fill)) 0) (b ∷ fill) rest fault
          (length-replicate (length (b ∷ fill)) 0))
        (ground arith)

  -- The padding is read whatever its bytes are.
  pub decode_fixed_opaque-Reads :
      (buf bs fill : List ℕ)
      → length buf ≡ length bs
      → length bs < 2 ^ 63
      → length fill ≡ residual (length bs)
      → decode_fixed_opaque buf (delivering (bs ++ (fill ++ rest)) fault)
        ≡ got bs none (delivering rest fault)
  unfolding decode_fixed_opaque
  decode_fixed_opaque-Reads buf bs fill h small hf =
      rw (read_full-append buf bs (fill ++ rest) fault h, fits) (skip_fill bs fill)
    where
      fits : round_up (length bs) - length bs ≡ length fill
      fits = omega (arith, round_up_lem (length bs) (omega arith))

  pub opaque_body-Reads :
      (max_int l : ℕ) (bs fill : List ℕ)
      → l ≡ length bs
      → l + 3 ≤ max_int
      → l + 3 < 2 ^ 64
      → length fill ≡ residual (length bs)
      → opaque_body max_int l (delivering (bs ++ (fill ++ rest)) fault)
        ≡ got bs none (delivering rest fault)
  unfolding opaque_body
  opaque_body-Reads max_int l bs fill h hm small hf =
      rw (le→ltb max_int (l + 3) hm, ← append_assoc, whole, h, take-append) refl
    where
      whole :
          read_full (delivering ((bs ++ fill) ++ rest) fault) (replicate (round_up l) 0) ≡ record {
            buf = bs ++ fill;
            count = length (bs ++ fill);
            error = none;
            reader = delivering rest fault;
          }
      whole = read_full-append (replicate (round_up l) 0) (bs ++ fill) rest fault (
          length-replicate (round_up l) 0
          ∙ omega (arith, round_up_lem l small, length-append bs fill))

module _ (rest : List ℕ) (fault : IoError) where
  -- A counted run of bytes, as long as neither its length nor the rounded length is refused.
  pub decode_opaque-Reads :
      (max_int max_len : ℕ) (bs fill : List ℕ)
      → length bs ≤ max_len
      → length bs < 2 ^ 32
      → length bs + 3 ≤ max_int
      → length fill ≡ residual (length bs)
      → decode_opaque max_int max_len
          (delivering (big_endian 4 (length bs) ++ (bs ++ (fill ++ rest))) fault)
        ≡ got bs none (delivering rest fault)
  unfolding decode_opaque
  decode_opaque-Reads max_int max_len [] [] hl h32 hm hf =
      rw (decode_unsigned_int-Reads rest fault 0 h32)
  decode_opaque-Reads max_int max_len [] (f ∷ fill) hl h32 hm hf = absurd (omega arith)
  decode_opaque-Reads max_int max_len (b ∷ bs) fill hl h32 hm hf =
      rw (decode_unsigned_int-Reads ((b ∷ bs) ++ (fill ++ rest)) fault (length (b ∷ bs)) h32) (
        opaque_after-body max_int max_len (length (b ∷ bs)) _ (omega arith) hl
        ∙ opaque_body-Reads rest fault max_int (length (b ∷ bs)) (b ∷ bs) fill refl hm (omega arith)
            hf)

  pub decode_string-Reads :
      (max_int max_len : ℕ) (s fill : List ℕ)
      → length s ≤ max_len
      → length s < 2 ^ 32
      → length s + 3 ≤ max_int
      → length fill ≡ residual (length s)
      → decode_string max_int max_len
          (delivering (big_endian 4 (length s) ++ (s ++ (fill ++ rest))) fault)
        ≡ got s none (delivering rest fault)
  unfolding decode_string
  decode_string-Reads max_int max_len s fill hl h32 hm hf =
      rw (decode_opaque-Reads max_int max_len s fill hl h32 hm hf)

  pub decode_fixed_string-Reads :
      (n : ℕ) (s fill : List ℕ)
      → n ≡ length s
      → length s < 2 ^ 63
      → length fill ≡ residual (length s)
      → decode_fixed_string n (delivering (s ++ (fill ++ rest)) fault)
        ≡ got s none (delivering rest fault)
  unfolding decode_fixed_string
  decode_fixed_string-Reads n s fill h small hf =
      decode_fixed_opaque-Reads rest fault (replicate n 0) s fill (length-replicate n 0 ∙ h) small
        hf
