-- ===== src/Codecs/Decodes.antt =====
-- internal/coder: how decoding steps follow one another on input in the wire format.
use xdr.Prelude.{
  ℕ, zero, suc, ◌+◌, ◌%◌, ◌^◌, ◌≤◌, ◌<◌, ◌≡◌, refl, sym, subst, false, Option, none, some, List, [],
  ◌++◌, append_assoc, length, replicate, length-replicate, arith, le→ltb, ◌==◌, Text,
}
use xdr.Errors.{Err, IoError}
use xdr.Io.{Decode, got, Abort, map_decoded}
use xdr.Encoder.{max_uint32}
use xdr.Encoder.Wire.{big_endian, residual, padded, counted}
use xdr.Decoder.{decode_opaque, decode_string, decode_fixed_opaque, decode_fixed_string}
use xdr.Decoder.Reads.{
  delivering, decode_unsigned_int-Reads, decode_opaque-Reads, decode_fixed_opaque-Reads,
  decode_fixed_string-Reads,
}
use xdr.Values.{Value, Values, no_values, and_value, slice_v, field_at, value_at, struct_v}
use xdr.Codecs.Stores.{storing, done, unless_error, into, make_values, with_field, with_value}
use xdr.Codecs.DecodeUnsafe.{
  with_part, decode_pair, after_value, slice_decode, union_decode, var_string_decode,
}

-- Behind the bytes, `decode` has made the value of them, without an error, and takes no more.
unfoldable pub Decodes {ℓ} : {A : Type ℓ} → Decode A → A → List ℕ → Type ℓ
Decodes decode v bs =
    (rest : List ℕ) (fault : IoError)
    → decode (delivering (bs ++ rest) fault) ≡ got v none (delivering rest fault)

pub storing-Decodes :
    {A : Type 0} (bad : Abort) (put : A → Option Value) (m : Decode A) (a : A) (v : Value)
    (bs : List ℕ)
    → Decodes m a bs
    → put a ≡ some v
    → Decodes (λ r. storing bad put (m r)) v bs
unfolding Decodes
storing-Decodes bad put m a v bs h e rest fault = rw (h rest fault, e)

pub unless_error-Decodes :
    {A B : Type 0} (old : B) (m : Decode A) (next : A → Decode B) (a : A) (b : B) (bs more : List ℕ)
    → Decodes m a bs
    → Decodes (next a) b more
    → Decodes (λ r. unless_error old (m r) next) b (bs ++ more)
unfolding Decodes
unless_error-Decodes old m next a b bs more h k rest fault =
    rw (append_assoc bs more rest, h (more ++ rest) fault) (k rest fault)

pub into-Decodes :
    {A : Type 0} (f : Err → Err) (put : Value → A) (m : Decode Value) (next : A → Decode A)
    (x : Value) (a : A) (bs more : List ℕ)
    → Decodes m x bs
    → Decodes (next (put x)) a more
    → Decodes (λ r. into f put (m r) next) a (bs ++ more)
unfolding Decodes
into-Decodes f put m next x a bs more h k rest fault =
    rw (append_assoc bs more rest, h (more ++ rest) fault) (k rest fault)

pub after_value-Decodes :
    (m : Decode Value) (each : Decode Values) (old vs : Values) (v : Value) (bs more : List ℕ)
    → Decodes m v bs
    → Decodes each vs more
    → Decodes (λ r. after_value (m r) old each) (and_value v vs) (bs ++ more)
unfolding Decodes
after_value-Decodes m each old vs v bs more h k rest fault =
    rw (append_assoc bs more rest, h (more ++ rest) fault, k rest fault)

pub done-Decodes {ℓ} : {A : Type ℓ} (a : A) → Decodes (done a) a []
unfolding Decodes
done-Decodes a rest fault = refl

pub Decodes-of_eq :
    {A : Type 0} (m n : Decode A) (a : A) (bs : List ℕ) → m ≡ n → Decodes n a bs → Decodes m a bs
Decodes-of_eq m n a bs e h = subst (λ x. Decodes x a bs) (sym e) h

pub into_last-Decodes :
    {A : Type 0} (f : Err → Err) (put : Value → A) (m : Decode Value) (x : Value) (a : A)
    (bs : List ℕ)
    → Decodes m x bs
    → put x ≡ a
    → Decodes (λ r. into f put (m r) done) a bs
unfolding Decodes
into_last-Decodes f put m x a bs h e rest fault = rw (h rest fault, e)

pub with_part-Decodes :
    {A B : Type 0} (bad : Abort) (o : Option A) (a : A) (f : A → Decode B) (b : B) (bs : List ℕ)
    → o ≡ some a
    → Decodes (f a) b bs
    → Decodes (with_part bad o f) b bs
unfolding Decodes
with_part-Decodes bad o a f b bs e h rest fault = rw (e, h rest fault)

pub pair-Decodes :
    (bad : Abort) (m : Decode ℕ) (p v : Value) (put : ℕ × ℕ → Option Value) (re im : ℕ)
    (bs more : List ℕ)
    → Decodes m re bs
    → Decodes m im more
    → put (re, im) ≡ some v
    → Decodes (decode_pair bad m p put) v (bs ++ more)
unfolding Decodes decode_pair
pair-Decodes bad m p v put re im bs more h k e rest fault =
    rw (append_assoc bs more rest, h (more ++ rest) fault, k rest fault, e)

pub union-Decodes :
    (name : Text) (p v : Value) (o : Option ℕ) (i : ℕ) (arm : ℕ → Decode Value) (bs : List ℕ)
    → o ≡ some i
    → Decodes (arm i) v bs
    → Decodes (union_decode name p o arm) v bs
unfolding Decodes union_decode
union-Decodes name p v o i arm bs e h rest fault = rw (e, h rest fault)

pub slice-Decodes :
    (bad : Abort) (zero_elem : Value) (maxlen orig_max l : ℕ) (old vs : Values)
    (each : ℕ → Values → Decode Values) (bs : List ℕ)
    → l ≤ maxlen
    → maxlen ≤ max_uint32
    → (l ≡ 0 → (vs ≡ no_values) × (bs ≡ []))
    → Decodes (each l (make_values l zero_elem)) vs bs
    → Decodes
        (slice_decode bad zero_elem maxlen orig_max (slice_v old) each)
        (slice_v vs)
        (big_endian 4 l ++ bs)
unfolding Decodes slice_decode
slice-Decodes bad zero_elem maxlen orig_max zero old vs each bs h k empty d rest fault =
    rw ((empty refl).1, (empty refl).0, decode_unsigned_int-Reads rest fault 0 (omega arith))
slice-Decodes bad zero_elem maxlen orig_max (suc l) old vs each bs h k empty d rest fault = rw (
  append_assoc (big_endian 4 (suc l)) bs rest,
  decode_unsigned_int-Reads (bs ++ rest) fault (suc l) (omega arith),
  nonzero,
  le→ltb (maxlen % 2 ^ 32) (suc l) (omega arith),
  d rest fault,
)
  where
    nonzero : (suc l == 0) ≡ false
    nonzero = ground arith

value_at-with_value :
    (i : ℕ) (vs : Values) (x y : Value)
    → value_at i vs ≡ some x
    → value_at i (with_value i y vs) ≡ some y
value_at-with_value i no_values x y h = cc
value_at-with_value zero (and_value v vs) x y h = refl
value_at-with_value (suc i) (and_value v vs) x y h = value_at-with_value i vs x y h

pub field_at-with_field :
    (i : ℕ) (p x y : Value) → field_at i p ≡ some x → field_at i (with_field i p y) ≡ some y
field_at-with_field i (struct_v vs) x y h = value_at-with_value i vs x y h
field_at-with_field i _ x y h = cc

pub map_decoded-Decodes :
    {A B : Type 0} (f : A → B) (m : Decode A) (a : A) (bs : List ℕ)
    → Decodes m a bs
    → Decodes (λ r. map_decoded f (m r)) (f a) bs
unfolding Decodes
map_decoded-Decodes f m a bs h rest fault = rw (h rest fault)

zeros : (n : ℕ) → length {A = ℕ} (replicate (residual n) 0) ≡ residual n
zeros n = length-replicate (residual n) 0

pub fixed_opaque-Decodes :
    (buf bs : List ℕ)
    → length buf ≡ length bs
    → length bs < 2 ^ 63
    → Decodes (decode_fixed_opaque buf) bs (padded bs)
unfolding Decodes
fixed_opaque-Decodes buf bs h small rest fault =
    rw (append_assoc bs (replicate (residual (length bs)) 0) rest)
      (decode_fixed_opaque-Reads rest fault buf bs _ h small (zeros (length bs)))

pub fixed_string-Decodes :
    (len : ℕ) (s : Text)
    → length s ≡ len
    → len < 2 ^ 63
    → Decodes (decode_fixed_string len) s (padded s)
unfolding Decodes
fixed_string-Decodes len s h small rest fault =
    rw (append_assoc s (replicate (residual (length s)) 0) rest)
      (decode_fixed_string-Reads rest fault len s _ (sym h) (omega arith) (zeros (length s)))

module _ (max_int : ℕ) (wide : max_uint32 + 3 ≤ max_int) where
  pub opaque-Decodes :
      (max_len : ℕ) (bs : List ℕ)
      → length bs ≤ max_len
      → length bs ≤ max_uint32
      → Decodes (decode_opaque max_int max_len) bs (counted bs)
  unfolding Decodes
  opaque-Decodes max_len bs h k rest fault =
      rw
        (
          append_assoc (big_endian 4 (length bs)) (padded bs) rest,
          append_assoc bs (replicate (residual (length bs)) 0) rest,
        )
        (decode_opaque-Reads rest fault max_int max_len bs _ h (omega arith) (omega arith)
          (zeros (length bs)))

  pub var_string-Decodes :
      (max_len orig_max : ℕ) (s : Text)
      → length s ≤ max_len
      → length s ≤ max_uint32
      → Decodes (var_string_decode max_int max_len orig_max) s (counted s)
  unfolding Decodes var_string_decode decode_string
  var_string-Decodes max_len orig_max s h k rest fault =
      rw (opaque-Decodes max_len s h k rest fault)
