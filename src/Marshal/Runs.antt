-- ===== src/Marshal/Runs.antt =====
-- A number sent from one coder, and read back.
use xdr.Prelude.{
  ℕ, ◌-◌, ◌^◌, ◌≤◌, ◌≡◌, refl, false, none, some, List, [], ◌∷◌, ◌++◌, ◌+◌, arith, take, length,
  leb, if◌then◌else◌, Bool-cases, inl, inr, Option,
}
use xdr.Errors.{eof, IoError, other, Err, io_error}
use xdr.Bufio.{Taken, took_all, cut, CountedWriter, Bufio, put_all, put_rounds}
use xdr.Bufio.Laws.{CountedLaws, TakesAt}
use xdr.Marshal.Write.{Sent, sent, plain, write}
use xdr.Marshal.Writes.{Arrives, write-content}
use xdr.Types.{Basic, GoType, basic, ptr, TypeEnv}
use xdr.Types.Identity.{same_type}
use xdr.Tags.{Tag}
use xdr.Values.{w32, uint_v, ptr_v}
use xdr.Decoder.Reads.{delivering}
use xdr.Codecs.{uint32_codec}
use xdr.Codecs.Access.{Host}
use xdr.Codecs.Permits.{Readable, Settable}
use xdr.Codecs.EncodeReflect.{default_build, encode_reflect}
use xdr.Encoder.{encode_unsigned_int, encode_int, write_bytes}
use xdr.Codecs.Wire.{Wire, uint32, depth}
use xdr.Codecs.Fits.{Fits}
use xdr.Io.{aborted, panic}
use xdr.Encoder.Buffer.{Buffer, buffer_writer}
use xdr.Coder.{
  Coder, new_coder, x_codec, deferred, Building, built, returned, load, load_base, run, get_codec,
  get_base_codec, get_new_codec,
}
use xdr.Coder.Memos.{x_type}
use xdr.Coder.Lookups.{here}
use xdr.Marshal.{marshal, marshalled, read, unmarshal, unmarshalled, host_of}
use xdr.Marshal.RoundTrip.{marshal-unmarshal}

abbrev host : {W : Type 0} → Host W
host = record {
  widen = λ x. x;
  narrow = λ x. x;
  marshal_xdr = λ v w. aborted panic;
  unmarshal_xdr = λ v r. aborted panic;
  encode_custom = λ i v w. aborted panic;
  decode_custom = λ i v r. aborted panic;
  resolve = λ xt. none;
}

abbrev word : GoType
word = basic Basic.uint32

abbrev constructions : GoType → Tag → Building
constructions t tag = built (x_codec uint32_codec)

abbrev env : TypeEnv
env i = record { name = []; underlying = word; is_marshaler = false }

abbrev after : Coder
after = record {
  known_base_codecs = (word, x_codec uint32_codec) ∷ [];
  known_codecs =
      (x_type word [], x_codec uint32_codec) ∷ (x_type word [], deferred (x_type word [])) ∷ [];
  resolved = (x_type word [], x_codec uint32_codec) ∷ [];
}

word_made :
    get_base_codec default_build constructions 1 word new_coder
    ≡ returned (x_codec uint32_codec) after
unfolding get_base_codec get_codec get_new_codec run load load_base same_type
word_made = refl

abbrev seven-Wire :
    {W : Type 0}
    → Wire {W = W} (host_of host after) uint32_codec (uint_v w32 7) (0 ∷ 0 ∷ 0 ∷ 7 ∷ [])
seven-Wire = uint32 7 (omega arith)

seven-depth : (W : Type 0) → depth (seven-Wire {W = W}) ≤ 1
unfolding depth
seven-depth W = omega arith

seven-Readable : (W : Type 0) → Readable (seven-Wire {W = W}) (record { addr = false; ro = false })
unfolding Readable
seven-Readable W = tt

seven-Settable : (W : Type 0) → Settable default_build (seven-Wire {W = W}) false
unfolding Settable
seven-Settable W = refl

seven-Fits : (W : Type 0) → Fits (seven-Wire {W = W}) (uint_v w32 9)
unfolding Fits
seven-Fits W = (9, refl)

marshal-unmarshal_example :
    (marshal host default_build env
        (2 ^ 63 - 1)
        constructions
        1
        (some (record { type = word; value = uint_v w32 7 }))
        new_coder
      ≡ marshalled (0 ∷ 0 ∷ 0 ∷ 7 ∷ []) none after)
    × (unmarshal host default_build env
          (2 ^ 63 - 1)
          constructions
          1
          (0 ∷ 0 ∷ 0 ∷ 7 ∷ [])
          (some (record { type = ptr word; value = ptr_v (uint_v w32 9) }))
          after
        ≡ unmarshalled (uint_v w32 7) none (delivering [] eof) after)
    × ((rest : List ℕ) (fault : IoError)
        → read host default_build env
            (2 ^ 63 - 1)
            constructions
            1
            (delivering ((0 ∷ 0 ∷ 0 ∷ 7 ∷ []) ++ rest) fault)
            (some (record { type = ptr word; value = ptr_v (uint_v w32 9) }))
            after
          ≡ unmarshalled (uint_v w32 7) none (delivering rest fault) after)
marshal-unmarshal_example =
    marshal-unmarshal host default_build env (2 ^ 63 - 1) constructions 1 word
      (x_codec uint32_codec) (uint_v w32 9) here word_made seven-Wire (omega arith)
      (seven-depth Buffer) (seven-Readable Buffer) (seven-Fits Buffer) (seven-Settable Buffer)

-- A disk with room for six bytes in all.
abbrev disk_write : List ℕ → List ℕ → Taken (List ℕ) Unit
disk_write bs disk =
    if leb (length disk + length bs) 6
    then took_all (disk ++ bs)
    else cut (6 - length disk) tt (disk ++ take (6 - length disk) bs)

instance abbrev disk : CountedWriter (List ℕ) Unit
disk = record { write = disk_write; as_error = λ e. io_error (other 28) }

disk_take_law : (bs d : List ℕ) → TakesAt (λ z. z) bs d (disk_write bs d)
disk_take_law bs d = elim (Bool-cases (leb (length d + length bs) 6)) [
  | inl e ↦ rw e refl
  | inr e ↦ rw e refl
]

abbrev disk_laws : CountedLaws (List ℕ) Unit
disk_laws = record { content = λ z. z; take_law = disk_take_law }

abbrev write_seven : List ℕ → Sent Buffer (List ℕ)
write_seven d =
    write {E = Unit} host host default_build constructions 1 (plain d)
      (some (record { type = word; value = uint_v w32 7 })) new_coder

disk_holds_it : write_seven (1 ∷ 2 ∷ []) ≡ sent (plain (1 ∷ 2 ∷ 0 ∷ 0 ∷ 0 ∷ 7 ∷ [])) none after
unfolding write get_base_codec get_codec get_new_codec run load load_base same_type encode_reflect
    put_all put_rounds encode_unsigned_int encode_int write_bytes
disk_holds_it = refl

disk_is_full :
    write_seven (1 ∷ 2 ∷ 3 ∷ [])
    ≡ sent (plain (1 ∷ 2 ∷ 3 ∷ 0 ∷ 0 ∷ 0 ∷ [])) (some (io_error (other 28))) after
unfolding write get_base_codec get_codec get_new_codec run load load_base same_type encode_reflect
    put_all put_rounds encode_unsigned_int encode_int write_bytes
disk_is_full = refl

write-content_example :
    (d : List ℕ) × (err : Option Err) × (write {D = Buffer} {E = Unit} host host default_build
        constructions 1
        (plain (1 ∷ 2 ∷ []))
        (some (record { type = word; value = uint_v w32 7 }))
        new_coder
      ≡ sent (plain d) err after)
    × Arrives {D = Buffer} disk_laws host host default_build constructions 1
        (0 ∷ 0 ∷ 0 ∷ 7 ∷ [])
        (1 ∷ 2 ∷ [])
        d
        err
write-content_example =
    write-content disk_laws host host default_build constructions 1 new_coder word
      (x_codec uint32_codec) (1 ∷ 2 ∷ []) word_made seven-Wire (seven-depth (Bufio (List ℕ) Unit))
      (seven-Readable (Bufio (List ℕ) Unit))
