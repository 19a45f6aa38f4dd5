-- ===== src/Codecs/Runs.antt =====
-- A union with a linked list in its arm, the type of whose nodes refers to itself.
use xdr.Prelude.{
  ◌++◌, ℕ, ◌-◌, ◌*◌, ◌/◌, ◌^◌, ◌%◌, ◌≤◌, ◌≡◌, refl, true, none, some, List, [], ◌∷◌, length, arith,
  codes, false, inl,
}
use xdr.Io.{read_full, Reader, done, got, aborted, panic}
use xdr.Encoder.Emits.{Emits}
use xdr.Encoder.Buffer.{Buffer, buffer_writer, buffer_laws}
use xdr.Types.{named}
use xdr.Values.{
  array_v, byte_values, Value, no_values, and_value, w32, int_v, bool_v, nil_v, ptr_v, struct_v,
}
use xdr.Codecs.{
  opaque_array_codec, XType, Codec, switch_bool, bool_codec, int32_codec, opt_codec, ptr_codec,
  struct_codec, union_codec, deferred_codec, no_fields, field_codec, no_field,
}
use xdr.Codecs.Access.{Host, Flag, is_exported}
use xdr.Codecs.Permits.{Readable, Settable}
use xdr.Decoder.{decode_bool, decode_int, decode_unsigned_int, be_uint32}
use xdr.Codecs.DecodeUnsafe.{decode_unsafe}
use xdr.Codecs.DecodeReflect.{decode_reflect}
use xdr.Codecs.Decode.{recall_unsafe, recall_reflect}
use xdr.Codecs.Fits.{Fits}
use xdr.Codecs.Decoding.{decode_wire, codec_round_trip}
use xdr.Decoder.Reads.{delivering}
use xdr.Errors.{eof}
use xdr.Codecs.Unions.{case_field}
use xdr.Codecs.EncodeUnsafe.{encode_unsafe}
use xdr.Codecs.EncodeReflect.{default_build, nounsafe_build, encode_reflect}
use xdr.Codecs.Encode.{call_unsafe, call_reflect}
use xdr.Codecs.Wire.{
  Wire, WireFields, WireArm, bool, int32, opt_nil, opt_some, ptr, struct, union, deferred, depth,
}
use xdr.Codecs.Encoding.{encode_wire, encoders_agree}

abbrev node_type : XType
node_type = record { type = named 0; encoded_tag = [] }

abbrev nil_node : Value
nil_node = struct_v (and_value (int_v w32 0) (and_value nil_v no_values))

abbrev next_codec : Codec
next_codec = opt_codec (ptr_codec (deferred_codec node_type) nil_node)

abbrev node_codec : Codec
node_codec =
    struct_codec (codes "Node") (
      field_codec 0 (codes "Value") int32_codec (field_codec 1 (codes "Next") next_codec no_fields))

abbrev list_codec : Codec
list_codec =
    union_codec (codes "List") 0 (codes "Present") bool_codec
      (no_field (field_codec 1 (codes "Head") node_codec no_fields)) ((1, 1) ∷ (0, 0) ∷ []) none
      switch_bool

abbrev host : Host Buffer
host = record {
  widen = λ x. x * 2 ^ 32;
  narrow = λ x. x / 2 ^ 32;
  marshal_xdr = λ v w. aborted panic;
  unmarshal_xdr = λ v r. aborted panic;
  encode_custom = λ i v w. aborted panic;
  decode_custom = λ i v r. aborted panic;
  resolve = λ xt. some node_codec;
}

abbrev node : ℕ → Value → Value
node x next = struct_v (and_value (int_v w32 x) (and_value next no_values))

abbrev two_nodes : Value
two_nodes =
    struct_v
      (and_value (bool_v true) (and_value (node 5 (ptr_v (node (2 ^ 32 - 2) nil_v))) no_values))

abbrev two_nodes_bytes : List ℕ
two_nodes_bytes =
    0 ∷ 0 ∷ 0 ∷ 1 ∷ 0 ∷ 0 ∷ 0 ∷ 5 ∷ 0 ∷ 0 ∷ 0 ∷ 1 ∷ 255 ∷ 255 ∷ 255 ∷ 254 ∷ 0 ∷ 0 ∷ 0 ∷ 0 ∷ []

abbrev last_node-Wire :
    Wire host node_codec (node (2 ^ 32 - 2) nil_v) (255 ∷ 255 ∷ 255 ∷ 254 ∷ 0 ∷ 0 ∷ 0 ∷ 0 ∷ [])
last_node-Wire = struct (codes "Node") (
    WireFields.field (codes "Value") refl (int32 (2 ^ 32 - 2) (omega arith))
      (WireFields.field (codes "Next") refl (opt_nil _) (WireFields.done _)))

abbrev two_nodes-Wire : Wire host list_codec two_nodes two_nodes_bytes
unfolding case_field
two_nodes-Wire =
    union (codes "List") 0 (codes "Present") ((1, 1) ∷ (0, 0) ∷ []) none switch_bool 1 1 refl
      (bool true) refl (omega arith) refl
      (WireArm.past_gap (
        WireArm.here (codes "Head") no_fields refl (
          struct (codes "Node") (
            WireFields.field (codes "Value") refl (int32 5 (omega arith)) (
              WireFields.field (codes "Next") refl
                (opt_some (ptr nil_node (deferred node_type refl last_node-Wire)))
                (WireFields.done _))))))

two_nodes-depth : depth two_nodes-Wire ≤ 1
unfolding depth two_nodes-Wire
two_nodes-depth = omega arith

-- A value without an address that is not read-only, as `Marshal` encodes it.
abbrev on_stack : Flag
on_stack = record { addr = false; ro = false }

two_nodes-Readable : Readable two_nodes-Wire on_stack
unfolding Readable two_nodes-Wire
two_nodes-Readable = (tt, (tt, (tt, tt)))

encode_wire_example :
    Emits buffer_laws (encode_unsafe host (call_unsafe host 1) list_codec two_nodes) two_nodes_bytes
    × Emits buffer_laws
        (encode_reflect host nounsafe_build
          (call_unsafe host 1)
          (call_reflect host nounsafe_build 1)
          list_codec
          on_stack
          two_nodes)
        two_nodes_bytes
encode_wire_example =
    encode_wire buffer_laws host two_nodes-Wire 1 nounsafe_build on_stack two_nodes-depth
      two_nodes-Readable

encoders_agree_example :
    (out : List ℕ) × (length out % 4 ≡ 0)
    × (encode_unsafe host (call_unsafe host 1) list_codec two_nodes [] ≡ done out)
    × (encode_reflect host nounsafe_build
          (call_unsafe host 1)
          (call_reflect host nounsafe_build 1)
          list_codec
          on_stack
          two_nodes
          []
        ≡ done out)
encoders_agree_example =
    encoders_agree host two_nodes-Wire 1 nounsafe_build on_stack two_nodes-depth two_nodes-Readable
      []

abbrev empty_list : Value
empty_list = struct_v (and_value (bool_v false) (and_value nil_node no_values))

last_node-Fits : Fits last_node-Wire nil_node
unfolding Fits
last_node-Fits = (int_v w32 0, refl, (0, refl), (nil_v, refl, inl refl, refl))

two_nodes-Fits : Fits two_nodes-Wire empty_list
unfolding Fits two_nodes-Wire
two_nodes-Fits = (
  bool_v false,
  refl,
  (false, refl),
  (
    nil_node,
    refl,
    (
      int_v w32 0,
      refl,
      (0, refl),
      (nil_v, refl, (inl refl, (inl refl, last_node-Fits), (inl refl, last_node-Fits)), refl),
    ),
    refl,
  ),
)

abbrev two_nodes_input : Reader
two_nodes_input = delivering (two_nodes_bytes ++ (7 ∷ [])) eof

two_nodes-Settable : Settable nounsafe_build two_nodes-Wire false
unfolding Settable two_nodes-Wire is_exported
two_nodes-Settable = (refl, (refl, ((refl, (refl, (refl, (refl, tt)))), tt)))

decode_wire_example :
    (decode_unsafe host
        (2 ^ 63 - 1)
        (recall_unsafe host (2 ^ 63 - 1) 1)
        list_codec
        empty_list
        two_nodes_input
      ≡ got two_nodes none (delivering (7 ∷ []) eof))
    × (decode_reflect host
          (2 ^ 63 - 1)
          nounsafe_build
          (recall_unsafe host (2 ^ 63 - 1) 1)
          (recall_reflect host (2 ^ 63 - 1) nounsafe_build 1)
          list_codec
          false
          empty_list
          two_nodes_input
        ≡ got two_nodes none (delivering (7 ∷ []) eof))
decode_wire_example =
    decode_wire host (2 ^ 63 - 1) two_nodes-Wire 1 nounsafe_build false empty_list (7 ∷ []) eof
      (omega arith) two_nodes-depth two_nodes-Fits two_nodes-Settable

codec_round_trip_example :
    (out : List ℕ) × (encode_reflect host default_build
        (call_unsafe host 1)
        (call_reflect host default_build 1)
        list_codec
        on_stack
        two_nodes
        []
      ≡ done out)
    × (decode_reflect host
          (2 ^ 63 - 1)
          nounsafe_build
          (recall_unsafe host (2 ^ 63 - 1) 1)
          (recall_reflect host (2 ^ 63 - 1) nounsafe_build 1)
          list_codec
          false
          empty_list
          (delivering (out ++ (7 ∷ [])) eof)
        ≡ got two_nodes none (delivering (7 ∷ []) eof))
codec_round_trip_example =
    codec_round_trip host (2 ^ 63 - 1) two_nodes-Wire 1 default_build nounsafe_build on_stack false
      empty_list (7 ∷ []) eof (omega arith) two_nodes-depth two_nodes-Readable two_nodes-Fits
      two_nodes-Settable

-- A struct with an opaque array of two bytes in an unexported field.
abbrev hidden_codec : Codec
hidden_codec = struct_codec (codes "T") (field_codec 0 (codes "v") (opaque_array_codec 2) no_fields)

abbrev hidden : Value
hidden = struct_v (and_value (array_v (byte_values (1 ∷ 2 ∷ []))) no_values)

unaddressed_hidden_panics :
    encode_reflect host default_build
      (call_unsafe host 1)
      (call_reflect host default_build 1)
      hidden_codec
      on_stack
      hidden
      []
    ≡ aborted panic
unfolding encode_reflect is_exported
unaddressed_hidden_panics = refl

-- A bool in an unexported field cannot be set in the nounsafe build.
abbrev hidden_bool_codec : Codec
hidden_bool_codec = struct_codec (codes "T") (field_codec 0 (codes "b") bool_codec no_fields)

hidden_bool_panics :
    decode_reflect host
      (2 ^ 63 - 1)
      nounsafe_build
      (recall_unsafe host (2 ^ 63 - 1) 1)
      (recall_reflect host (2 ^ 63 - 1) nounsafe_build 1)
      hidden_bool_codec
      false
      (struct_v (and_value (bool_v false) no_values))
      (delivering (0 ∷ 0 ∷ 0 ∷ 1 ∷ []) eof)
    ≡ aborted panic
unfolding decode_reflect is_exported decode_bool decode_int decode_unsigned_int read_full be_uint32
hidden_bool_panics = refl
