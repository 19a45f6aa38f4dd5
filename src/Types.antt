-- ===== src/Types.antt =====
-- The part of Go's `reflect.Type` that the library inspects: kinds, element types and struct
-- fields. A declared (named) type is an identity with a declaration in the program's environment,
-- so types may refer to one another in cycles.
pub mod Identity
use xdr.Prelude.{ℕ, Bool, Text}

-- `reflect.Kind`.
pub data Kind : Type 0 where
  invalid bool int int8 int16 int32 int64 uint uint8 uint16 uint32 uint64 uintptr : Kind
  float32 float64 complex64 complex128 array chan func interface map ptr slice string : Kind
  struct unsafe_pointer : Kind

-- The kinds of the predeclared types, which have no elements.
pub data Basic : Type 0 where
  bool int int8 int16 int32 int64 uint uint8 uint16 uint32 uint64 uintptr : Basic
  float32 float64 complex64 complex128 chan func interface string unsafe_pointer : Basic

mutual
  pub data GoType : Type 0 where
    basic : Basic → GoType
    ptr : GoType → GoType
    slice : GoType → GoType
    array : ℕ → GoType → GoType
    map : GoType → GoType → GoType
    struct : StructFields → GoType
    named : ℕ → GoType

  -- A field's name, type and the value of its `xdr` struct tag.
  pub data StructFields : Type 0 where
    no_fields : StructFields
    struct_field : Text → GoType → Text → StructFields → StructFields

-- What a type declaration says: the name, the underlying type (never a named one), and whether
-- the type has the methods of `Marshaler`.
pub record TypeDecl : Type 0 where
  pub name : Text
  pub underlying : GoType
  pub is_marshaler : Bool

abbrev pub TypeEnv : Type 0
TypeEnv = ℕ → TypeDecl

abbrev pub underlying : TypeEnv → GoType → GoType
underlying env (named i) = (env i).underlying
underlying env t = t

abbrev basic_kind : Basic → Kind
basic_kind Basic.bool = Kind.bool
basic_kind Basic.int = Kind.int
basic_kind Basic.int8 = Kind.int8
basic_kind Basic.int16 = Kind.int16
basic_kind Basic.int32 = Kind.int32
basic_kind Basic.int64 = Kind.int64
basic_kind Basic.uint = Kind.uint
basic_kind Basic.uint8 = Kind.uint8
basic_kind Basic.uint16 = Kind.uint16
basic_kind Basic.uint32 = Kind.uint32
basic_kind Basic.uint64 = Kind.uint64
basic_kind Basic.uintptr = Kind.uintptr
basic_kind Basic.float32 = Kind.float32
basic_kind Basic.float64 = Kind.float64
basic_kind Basic.complex64 = Kind.complex64
basic_kind Basic.complex128 = Kind.complex128
basic_kind Basic.chan = Kind.chan
basic_kind Basic.func = Kind.func
basic_kind Basic.interface = Kind.interface
basic_kind Basic.string = Kind.string
basic_kind Basic.unsafe_pointer = Kind.unsafe_pointer

abbrev shape_kind : GoType → Kind
shape_kind (basic b) = basic_kind b
shape_kind (ptr t) = Kind.ptr
shape_kind (slice t) = Kind.slice
shape_kind (array n t) = Kind.array
shape_kind (map k v) = Kind.map
shape_kind (struct fs) = Kind.struct
shape_kind (named i) = Kind.invalid

-- `t.Kind()`.
abbrev pub kind : TypeEnv → GoType → Kind
kind env t = shape_kind (underlying env t)
