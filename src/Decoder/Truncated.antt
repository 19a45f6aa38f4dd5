-- ===== src/Decoder/Truncated.antt =====
-- internal/coder/decoder.go on input that ends early or exceeds a limit.
use xdr.Prelude.{
  ℕ, ◌+◌, ◌-◌, ◌*◌, ◌/◌, ◌^◌, ◌≤◌, ◌<◌, ◌≡◌, ◌≢◌, ◌↔◌, none, some, List, [], ◌++◌, length, take,
  drop, replicate, arith, length-replicate, length-drop, take-append_more, take-replicate,
  drop-replicate, ap, ◌∙◌, drop-drop,
}
use xdr.Errors.{IoError, length_error}
use xdr.Io.{Reader, read_full, got}
use xdr.Encoder.Wire.{big_endian, residual}
use xdr.Decoder.{
  round_up, opaque_body, decode_opaque, discard_padding, decode_fixed_opaque, decode_string,
}
use xdr.Decoder.Reads.{delivering, decode_unsigned_int-Reads, opaque_after-body, round_up_lem}

-- `ReadFull` has no error exactly when the reader delivers at least the buffer's length.
read_full-error :
    (r : Reader) (buf : List ℕ) → ((read_full r buf).error ≡ none) ↔ (length buf ≤ length r.pending)
unfolding read_full
read_full-error r buf = (λ h. ground arith, λ h. ground arith)

-- The declared length of an opaque or string is checked before its body is read: beyond the
-- caller's limit the error has both numbers, nothing is allocated and only the length is consumed.
pub decode_opaque_too_long :
    (max_int max_len l : ℕ) (rest : List ℕ) (fault : IoError)
    → l < 2 ^ 32
    → max_len < l
    → (decode_opaque max_int max_len (delivering (big_endian 4 l ++ rest) fault)
        ≡ got [] (some (length_error l max_len)) (delivering rest fault))
      × (decode_string max_int max_len (delivering (big_endian 4 l ++ rest) fault)
          ≡ got [] (some (length_error l max_len)) (delivering rest fault))
unfolding decode_opaque decode_string
decode_opaque_too_long max_int max_len l rest fault h32 h =
    rw (decode_unsigned_int-Reads rest fault l h32) (ground arith, ground arith)

missing :
    (l n : ℕ) (body : List ℕ)
    → length body < l
    → l ≤ n
    → take l (body ++ drop (length body) (replicate n 0)) ≡ body ++ replicate (l - length body) 0
missing l n body cut h =
    take-append_more l body _ (omega arith)
    ∙ ap (λ t. body ++ t)
        (rw (drop-replicate (length body) n)
          (take-replicate (l - length body) (n - length body) 0 (omega arith)))

cut_body :
    (max_int l : ℕ) (body : List ℕ) (fault : IoError)
    → l + 3 ≤ max_int
    → length body < l
    → round_up l ≡ (l + 3) / 4 * 4
    → opaque_body max_int l (delivering body fault)
      ≡ got (body ++ replicate (l - length body) 0) none (delivering [] fault)
unfolding opaque_body read_full
cut_body max_int l body fault hm cut e =
    ground (arith, length-replicate {0} {A = ℕ} (round_up l) 0, missing l (round_up l) body)

-- `DecodeOpaque` drops the error of reading the body: when the input ends inside the body it still
-- answers without an error, with zeros for the bytes that are missing.
pub decode_opaque_cut :
    (max_int max_len l : ℕ) (body : List ℕ) (fault : IoError)
    → 0 < l
    → l < 2 ^ 32
    → l ≤ max_len
    → l + 3 ≤ max_int
    → length body < l
    → decode_opaque max_int max_len (delivering (big_endian 4 l ++ body) fault)
      ≡ got (body ++ replicate (l - length body) 0) none (delivering [] fault)
unfolding decode_opaque
decode_opaque_cut max_int max_len l body fault pos h32 hl hm cut =
    rw (decode_unsigned_int-Reads body fault l h32, opaque_after-body max_int max_len l _ pos hl)
      (cut_body max_int l body fault hm cut (round_up_lem l (omega arith)))

-- `DecodeFixedOpaque` answers without an error exactly when the reader delivers the buffer and its
-- padding: then the buffer is filled and both are consumed.
pub decode_fixed_opaque_complete :
    (buf : List ℕ) (r : Reader)
    → length buf < 2 ^ 63
    → (length buf + residual (length buf) ≤ length r.pending
        → decode_fixed_opaque buf r
          ≡ got
              (take (length buf) r.pending)
              none
              (record r { pending = drop (length buf + residual (length buf)) r.pending }))
      × (length r.pending < length buf + residual (length buf)
          → (b : List ℕ) (r' : Reader) → decode_fixed_opaque buf r ≢ got b none r')
unfolding decode_fixed_opaque discard_padding read_full
decode_fixed_opaque_complete buf r small = (
  λ h. ground (
    arith,
    round_up_lem (length buf) (omega arith),
    length-drop (length buf) r.pending,
    length-replicate {0} {A = ℕ} (residual (length buf)) 0,
    drop-drop (residual (length buf)) (length buf) r.pending,
  ),
  λ h b r'. ground (
    arith,
    round_up_lem (length buf) (omega arith),
    length-drop (length buf) r.pending,
    length-replicate {0} {A = ℕ} (residual (length buf)) 0,
  ),
)
