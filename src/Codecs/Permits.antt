-- ===== src/Codecs/Permits.antt =====
-- Where `reflect` permits what the codecs do with a described value: a read-only one cannot be set, and
-- not be copied by `Set`. Each predicate is trivial where no struct has an unexported field.
use xdr.Prelude.{ℕ, ◌≡◌, refl, Bool, true, false, ◌&&◌, not, List}
use xdr.Values.{Value, Values}
use xdr.Codecs.{Codec, FieldCodecs}
use xdr.Codecs.Access.{Host, Flag, field_ro, field_flag}
use xdr.Codecs.EncodeReflect.{Build, default_build, nounsafe_build}
use xdr.Codecs.Wire.{Wire, WireElems, WireFields, WireArm}

-- What `Decode` by `reflect` needs, which the default build leaves to the unsafe methods.
abbrev pub ByReflect : Build → Type 0 → Type 0
ByReflect default_build A = Unit
ByReflect nounsafe_build A = A

addressed : (ro : Bool) → (ro && not true) ≡ false
addressed true = refl
addressed false = refl

module _ {W : Type 0} {host : Host W} where
  unfoldable mutual
    -- `Encode` of the value with these flags: every opaque array that has no address must not be
    -- read-only.
    pub Readable : {c : Codec} {v : Value} {bs : List ℕ} → Wire host c v bs → Flag → Type 0
    Readable (Wire.opaque_array len bs e) flag = (flag.ro && not flag.addr) ≡ false
    Readable (Wire.array len e d) flag = ReadableElems d flag
    Readable (Wire.opt_some d) flag = Readable d flag
    Readable (Wire.struct name d) flag = ReadableFields d flag
    Readable (Wire.union name j sw_name cases default_case sk n i f d e h g a) flag =
        Readable d (field_flag flag sw_name) × ReadableArm a flag
    Readable (Wire.deferred xt e d) flag = Readable d flag
    Readable _ flag = Unit

    pub ReadableElems :
        {c : Codec} {vs : Values} {bs : List ℕ} → WireElems host c vs bs → Flag → Type 0
    ReadableElems (WireElems.no_elems c) flag = Unit
    ReadableElems (WireElems.elem d ds) flag = Readable d flag × ReadableElems ds flag

    pub ReadableFields :
        {fs : FieldCodecs} {v : Value} {bs : List ℕ} → WireFields host fs v bs → Flag → Type 0
    ReadableFields (WireFields.done v) flag = Unit
    ReadableFields (WireFields.field name f d ds) flag =
        Readable d (field_flag flag name) × ReadableFields ds flag

    pub ReadableArm :
        {fs : FieldCodecs} {i : ℕ} {v : Value} {bs : List ℕ}
        → WireArm host fs i v bs
        → Flag
        → Type 0
    ReadableArm (WireArm.here name fs f d) flag = Readable d (field_flag flag name)
    ReadableArm (WireArm.past index name c a) flag = ReadableArm a flag
    ReadableArm (WireArm.past_gap a) flag = ReadableArm a flag

  unfoldable mutual
    -- `Decode` to memory that is read-only or not: nothing that it sets must be.
    pub Settable : {c : Codec} {v : Value} {bs : List ℕ} → Build → Wire host c v bs → Bool → Type 0
    Settable build (Wire.opaque_array len bs e) ro = Unit
    Settable build (Wire.array len e d) ro = SettableElems build d ro
    Settable build (Wire.slice zero_elem maxlen orig_max k l d) ro =
        (ro ≡ false) × SettableElems build d ro
    Settable build (Wire.opt_some d) ro = (ro ≡ false) × Settable build d ro
    Settable build (Wire.ptr zero_elem d) ro = (ro ≡ false) × ByReflect build (Settable build d ro)
    Settable build (Wire.struct name d) ro = ByReflect build (SettableFields build d ro)
    Settable build (Wire.union name j sw_name cases default_case sk n i f d e h g a) ro =
        ByReflect build (Settable build d (field_ro ro sw_name) × SettableArm build a ro)
    Settable build (Wire.deferred xt e d) ro = Settable build d ro
    Settable build _ ro = ro ≡ false

    pub SettableElems :
        {c : Codec} {vs : Values} {bs : List ℕ} → Build → WireElems host c vs bs → Bool → Type 0
    SettableElems build (WireElems.no_elems c) ro = Unit
    SettableElems build (WireElems.elem d ds) ro = Settable build d ro × SettableElems build ds ro

    pub SettableFields :
        {fs : FieldCodecs} {v : Value} {bs : List ℕ}
        → Build
        → WireFields host fs v bs
        → Bool
        → Type 0
    SettableFields build (WireFields.done v) ro = Unit
    SettableFields build (WireFields.field name f d ds) ro =
        Settable build d (field_ro ro name) × SettableFields build ds ro

    pub SettableArm :
        {fs : FieldCodecs} {i : ℕ} {v : Value} {bs : List ℕ}
        → Build
        → WireArm host fs i v bs
        → Bool
        → Type 0
    SettableArm build (WireArm.here name fs f d) ro = Settable build d (field_ro ro name)
    SettableArm build (WireArm.past index name c a) ro = SettableArm build a ro
    SettableArm build (WireArm.past_gap a) ro = SettableArm build a ro

  mutual
    unfolding Readable

    -- A value that has an address is readable.
    pub addressed-Readable :
        {c : Codec} {v : Value} {bs : List ℕ} (d : Wire host c v bs) (ro : Bool)
        → Readable d (record { addr = true; ro = ro })
    addressed-Readable (Wire.opaque_array len bs e) ro = addressed ro
    addressed-Readable (Wire.array len e d) ro = addressed-ReadableElems d ro
    addressed-Readable (Wire.opt_some d) ro = addressed-Readable d ro
    addressed-Readable (Wire.struct name d) ro = addressed-ReadableFields d ro
    addressed-Readable (Wire.union name j sw_name cases default_case sk n i f d e h g a) ro =
        (addressed-Readable d (field_ro ro sw_name), addressed-ReadableArm a ro)
    addressed-Readable (Wire.deferred xt e d) ro = addressed-Readable d ro
    addressed-Readable _ ro = tt

    pub addressed-ReadableElems :
        {c : Codec} {vs : Values} {bs : List ℕ} (d : WireElems host c vs bs) (ro : Bool)
        → ReadableElems d (record { addr = true; ro = ro })
    addressed-ReadableElems (WireElems.no_elems c) ro = tt
    addressed-ReadableElems (WireElems.elem d ds) ro =
        (addressed-Readable d ro, addressed-ReadableElems ds ro)

    addressed-ReadableFields :
        {fs : FieldCodecs} {v : Value} {bs : List ℕ} (d : WireFields host fs v bs) (ro : Bool)
        → ReadableFields d (record { addr = true; ro = ro })
    addressed-ReadableFields (WireFields.done v) ro = tt
    addressed-ReadableFields (WireFields.field name f d ds) ro =
        (addressed-Readable d (field_ro ro name), addressed-ReadableFields ds ro)

    addressed-ReadableArm :
        {fs : FieldCodecs} {i : ℕ} {v : Value} {bs : List ℕ} (d : WireArm host fs i v bs)
        (ro : Bool)
        → ReadableArm d (record { addr = true; ro = ro })
    addressed-ReadableArm (WireArm.here name fs f d) ro = addressed-Readable d (field_ro ro name)
    addressed-ReadableArm (WireArm.past index name c a) ro = addressed-ReadableArm a ro
    addressed-ReadableArm (WireArm.past_gap a) ro = addressed-ReadableArm a ro
