-- ===== src/Codecs/DecodesPrimitives.antt =====
-- internal/coder/decoder.go, as the codecs use it: the primitives decode what represents them.
use xdr.Prelude.{ℕ, ◌^◌, ◌<◌, Bool, if◌then◌else◌}
use xdr.Encoder.Wire.{big_endian}
use xdr.Decoder.{
  decode_unsigned_int, decode_int, decode_hyper, decode_unsigned_hyper, decode_float, decode_double,
  decode_bool,
}
use xdr.Decoder.Reads.{decode_unsigned_int-Reads, decode_unsigned_hyper-Reads, decode_bool-Reads}
use xdr.Codecs.Decodes.{Decodes}

pub int-Decodes : (x : ℕ) → x < 2 ^ 32 → Decodes decode_int x (big_endian 4 x)
unfolding Decodes decode_int
int-Decodes x h rest fault = decode_unsigned_int-Reads rest fault x h

pub float-Decodes : (x : ℕ) → x < 2 ^ 32 → Decodes decode_float x (big_endian 4 x)
unfolding Decodes decode_float
float-Decodes x h rest fault = decode_unsigned_int-Reads rest fault x h

pub unsigned_int-Decodes : (x : ℕ) → x < 2 ^ 32 → Decodes decode_unsigned_int x (big_endian 4 x)
unfolding Decodes
unsigned_int-Decodes x h rest fault = decode_unsigned_int-Reads rest fault x h

pub hyper-Decodes : (x : ℕ) → x < 2 ^ 64 → Decodes decode_hyper x (big_endian 8 x)
unfolding Decodes decode_hyper
hyper-Decodes x h rest fault = decode_unsigned_hyper-Reads rest fault x h

pub unsigned_hyper-Decodes : (x : ℕ) → x < 2 ^ 64 → Decodes decode_unsigned_hyper x (big_endian 8 x)
unfolding Decodes
unsigned_hyper-Decodes x h rest fault = decode_unsigned_hyper-Reads rest fault x h

pub double-Decodes : (x : ℕ) → x < 2 ^ 64 → Decodes decode_double x (big_endian 8 x)
unfolding Decodes decode_double
double-Decodes x h rest fault = decode_unsigned_hyper-Reads rest fault x h

pub bool-Decodes : (b : Bool) → Decodes decode_bool b (big_endian 4 (if b then 1 else 0))
unfolding Decodes
bool-Decodes b rest fault = decode_bool-Reads rest fault b
