-- ===== src/Lib.antt =====
-- A model of the Go library go.e43.eu/xdr, which encodes Go values by the rules of RFC 4506 (XDR)
-- and decodes them again, with the theorems that make it correct.
--
-- The program's parts. A coder (internal/coder/coder.go) turns a Go type and a struct tag into a
-- codec; codecs for composite types hold codecs for their parts. To encode, `Marshal` and `Write`
-- hand a codec an encoder (internal/coder/encoder.go) that writes the primitives to an `io.Writer`;
-- to decode, `Unmarshal` and `Read` hand it a decoder (internal/coder/decoder.go) over an
-- `io.Reader`. Struct tags are parsed into byte strings (internal/tags/tags.go), errors carry the path
-- to the field at fault (internal/errors/errors.go), and the body of an opaque can be read as a
-- stream (internal/coder/opaquereader.go).
--
-- Which file models which part:
--   Types       the part of `reflect.Type` that the library inspects
--   Errors      internal/errors/errors.go; Errors/Paths proves what wrapping keeps, and
--               Errors/Texts has the texts of errors
--   Io          `io.Writer`, `io.Reader` and `io.ReadFull`, and how a call ends
--   Encoder     the primitives of internal/coder/encoder.go; Encoder/Wire describes the bytes
--               independently, Encoder/Emits relates the two, Encoder/Buffer is the buffer of
--               `Marshal`, Encoder/Limits has the limit on counted runs, Encoder/Cache the cache of
--               codecs of `EncodeValue`
--   Decoder     the primitives of internal/coder/decoder.go; Decoder/Reads and Decoder/RoundTrip
--               read back what the encoder writes, Decoder/Truncated is about input that ends early
--   OpaqueReader  internal/coder/opaquereader.go; OpaqueReader/Sessions has whole sessions,
--               OpaqueReader/WriteTo is `WriteTo` and OpaqueReader/Passing about it
--   Tags        internal/tags/tags.go; Tags/Entries is the abstract view of a tag as
--               a list of entries, which Tags/Accessors and Tags/Trim refine. Tags/Parse is `ParseTag`;
--               Tags/Layers says what a tag may say of a type, Tags/Parsing, Tags/Outcomes and
--               Tags/Sound prove it of what `ParseTag` accepts, and Tags/Print, Tags/Ink and
--               Tags/Complete read back what is written out. Tags/Text and Tags/Printed are about
--               `String`
--   Values      Go values, as `reflect.Value` and as memory
--   Codecs      internal/coder/codec_*.go: the codecs as data. Codecs/EncodeUnsafe and
--               Codecs/DecodeUnsafe are `encodeUnsafe` and `decodeUnsafe`; Codecs/EncodeReflect and
--               Codecs/DecodeReflect are `Encode` and `Decode` in the default and the nounsafe
--               build; Codecs/Access and Codecs/Stores are how they get at values and store them;
--               Codecs/Encode and Codecs/Decode tie the knot through placeholders. Codecs/Make is
--               `buildCodec` of internal/coder/coder.go with the constructors of codecs, and
--               Codecs/MakesStrings and Codecs/Making say what comes of them. Codecs/MakeStruct is
--               `makeStructCodec`, Codecs/UnionArms and Codecs/UnionCases say where the cases of a
--               union codec lead, and Codecs/StructMaking and Codecs/StructPanics when it panics.
--               Codecs/MapCodec is internal/coder/codec_map.go, with Codecs/MapRoundTrip and
--               Codecs/MapLimits.
--               Codecs/Wire describes the format of RFC 4506 as an inductive relation, and
--               Codecs/Fits the memory that a value can be decoded to. Codecs/EmitsUnsafe,
--               Codecs/EmitsReflect and Codecs/Encoding prove the encoders against the relation,
--               and Codecs/Decodes, Codecs/DecodesPrimitives, Codecs/DecodesUnsafe,
--               Codecs/DecodesReflect and Codecs/Decoding the decoders. Codecs/Permits says where
--               `reflect` permits what both do
--   Coder       the memos of internal/coder/coder.go and the wrapping of internal/coder/codec_unsafe.go;
--               Coder/Memos and Coder/Calls say what a call does to them, Coder/Lookups what holds over
--               calls that return and after a panic, Coder/Ends that constructions end, and Coder/Register and
--               Coder/Registering are about `RegisterCodecReflect`
--   Marshal     `Marshal`, `Unmarshal` and `Read` of internal/coder/coder.go, with `Encode` and `Decode`
--               of the encoder and the decoder; Marshal/RoundTrip goes there and back. Marshal/Write is
--               `Write`, and Marshal/Writes about it
--   Bufio       Go's `bufio.Writer`, which `Write` uses, with Bufio/Laws
--
-- How state and operations correspond. A method of the encoder is a function from the writer's state
-- to a result with the new state; a method of the decoder takes the reader's state and returns a
-- value, an error and the new state, since Go returns a value beside an error. A Go panic, a read of
-- memory at another type, a wait that nobody ends and fuel used up are results of their own.
-- The writer, float conversion, marshalers and registered codecs are not part of the repository, and
-- are parameters: `Writer` with the laws `WriterLaws`, and `Host`. So is the order in which a Go map is
-- iterated over.
--
-- Integers are natural numbers that stand for bit patterns, with the wrap-around written out. Lengths
-- are natural numbers; `max_int` is the largest `int` where the code compares with it.
--
-- Fuel and bounds. `Trimmed` runs on the length of the tag, which is enough since every entry has a
-- byte. A codec is called through placeholders for the types in a cycle: the fuel bounds how many
-- placeholders are passed on the way down, and `depth` of a value's description is enough.
--
-- Struct tags are ASCII texts, given as the value of their `xdr` key. The parts of the packages strings and
-- strconv that parse them, as of Go 1.13 and later, are in Prelude/Texts.
--
-- The theorems on decoding codecs take an `int` that holds any 32-bit length, as on 64-bit platforms.
--
-- `getCodec` has fuel for nested constructions: the number of types and tags in reach is enough. What
-- a construction asks the coder for is an argument there, while in Codecs/Make it asks a function.
--
-- A `reflect.Value` has the two flags that matter here: whether it has an address, and whether it is
-- read-only since it was obtained by way of an unexported field, one whose name does not begin with a
-- capital ASCII letter. Setting a read-only value is a panic, copying it by `Set` too, and `Interface` of
-- it. A struct type is taken to embed no type with an unexported name, for which the rule is another.
-- A registered codec is given the value without its flags.
--
-- Not modelled: calls of a coder from several goroutines, opaque slices of `int8` on decoding, the
-- pools of encoders and decoders, and interfaces/interfaces.go and interface.go, which declare
-- interfaces. The map codec is no constructor of the data type of codecs.
pub mod Prelude
pub mod Types
pub mod Errors
pub mod Io
pub mod Encoder
pub mod Decoder
pub mod OpaqueReader
pub mod Tags
pub mod Values
pub mod Bufio
pub mod Codecs
pub mod Coder
pub mod Marshal
