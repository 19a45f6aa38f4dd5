-- ===== src/Marshal/Writes.antt =====
-- internal/coder/coder.go, `Write`: what reaches the writer.
use xdr.Prelude.{
  Bool, ℕ, ◌≤◌, ◌≡◌, refl, ◌∙◌, ap, sym, Option, none, some, List, ◌++◌, ◌∷◌, [], append_assoc,
  append-nil,
}
use xdr.Errors.{Err}
use xdr.Io.{Writer, Written, done, failed, aborted}
use xdr.Types.{GoType}
use xdr.Tags.{Tag}
use xdr.Values.{Value}
use xdr.Bufio.{CountedWriter, Bufio, fresh, flush, bufio_writer}
use xdr.Bufio.Laws.{CountedLaws, held, bufio_laws, Grown, Grown-trans, Passes, flush-Passes}
use xdr.Encoder.Emits.{EmitsAt}
use xdr.Codecs.Access.{Host}
use xdr.Codecs.Permits.{Readable}
use xdr.Codecs.EncodeReflect.{Build}
use xdr.Codecs.Wire.{Wire, depth}
use xdr.Codecs.Encoding.{encode_wire}
use xdr.Coder.{Coder, Stored, Building, returned, get_base_codec}
use xdr.Marshal.{host_of, codec_of, encode_to}
use xdr.Marshal.Write.{plain, sent, sent_plain, after_flush, write}

append-cancel : (xs ys zs : List ℕ) → xs ++ ys ≡ xs ++ zs → ys ≡ zs
append-cancel [] ys zs h = h
append-cancel (x ∷ xs) ys zs h = append-cancel xs ys zs cc

module _ {D W E : Type 0} ⦃io : Writer D⦄ ⦃counted : CountedWriter W E⦄ (laws : CountedLaws W E)
    (host_d : Host D) (host_w : Host (Bufio W E)) (build : Build)
    (build_codec : GoType → Tag → Building) (fuel : ℕ) where
  open laws use {content}

  -- Without an error all of `bs` was added to what the writer had; with one, which is an error that the
  -- writer can have, a front part.
  abbrev pub Arrives : List ℕ → W → W → Option Err → Type 0
  Arrives bs w w' none = content w' ≡ content w ++ bs
  Arrives bs w w' (some e) =
      E
      × (front : List ℕ) × (back : List ℕ) × (front ++ back ≡ bs)
      × (content w' ≡ content w ++ front)

  -- What a writer has gained is a front part of what was to be added, if the rest is accounted for.
  gained :
      (bs unsent : List ℕ) (w : W) (b : Bufio W E) (e : Err)
      → E
      → Grown laws (fresh w) b
      → content b.wr ++ unsent ≡ content w ++ bs
      → Arrives bs w b.wr (some e)
  gained bs unsent w b e x (front, p) q = (
    x,
    front,
    unsent,
    append-cancel (content w) (front ++ unsent) bs
        (sym (append_assoc (content w) front unsent) ∙ ap (λ z. z ++ unsent) (sym p) ∙ q),
    p,
  )

  arrived :
      (cr : Coder) (bs : List ℕ) (w : W) (r : Written (Bufio W E))
      → EmitsAt E (held laws) (Grown laws) bs (fresh w) r
      → (w' : W) × (err : Option Err) × (sent_plain {D = D} host_d host_w build build_codec fuel cr
            r
          ≡ sent (plain w') err cr)
        × Arrives bs w w' err
  arrived cr bs w (done b) (h, l) = after_flushing (flush b) (flush-Passes laws b)
    where
      start : held laws b ≡ content w ++ bs
      start = h ∙ ap (λ z. z ++ bs) (append-nil (content w))

      after_flushing :
          (r : Option Err × Bufio W E)
          → Passes laws b r
          → (w' : W) × (err : Option Err) × (after_flush {D = D} host_d host_w build build_codec
                fuel cr r
              ≡ sent (plain w') err cr)
            × Arrives bs w w' err
      after_flushing (none, c) p = (c.wr, none, refl, p ∙ start)
      after_flushing (some e, c) (x, p, g) = (
        c.wr,
        some e,
        refl,
        gained bs c.buf w c e x (Grown-trans laws (fresh w) b c l g) (p ∙ start),
      )
  arrived cr bs w (failed e b) (x, front, back, p, q, l) = (
    b.wr,
    some e,
    refl,
    gained bs (b.buf ++ back) w b e x l (
        sym (append_assoc (content b.wr) b.buf back)
        ∙ ap (λ z. z ++ back) q
        ∙ rw (append-nil (content w), append_assoc, p) refl),
  )
  arrived cr bs w (aborted a) h = absurd h

  -- `Write` to a writer that is not buffered, which keeps the contract of `io.Writer`, with fuel for
  -- the placeholders in the description: if `getBaseCodec` returns a codec for the type, and the codec
  -- represents the value in bytes, through the placeholders as the coder has resolved them, without
  -- an opaque array in an unexported field of a value that has no address, then `Write` returns.
  -- Without an error exactly these bytes have been added to what the writer had. With an error, which
  -- only a writer that has errors can cause, a front part of them has been added, and what the writer
  -- had is still in front of it.
  pub write-content :
      (cr : Coder) {more : Coder} {v : Value} {bs : List ℕ} (t : GoType) (s : Stored) (w : W)
      → get_base_codec build build_codec fuel t cr ≡ returned s more
      → (d : Wire (host_of host_w more) (codec_of s) v bs) → depth d ≤ fuel
      → Readable d (record { addr = Bool.false; ro = Bool.false })
      → (w' : W) × (err : Option Err) × (write host_d host_w build build_codec fuel
            (plain w)
            (some (record { type = t; value = v }))
            cr
          ≡ sent (plain w') err more)
        × Arrives bs w w' err
  write-content cr {more = more} {v = v} {bs = bs} t s w e d h q =
      unfold write in
      (rw e (
        arrived more bs w (encode_to host_w build fuel s more v (fresh w)) (
          (encode_wire (bufio_laws laws) (host_of host_w more) d fuel build
              (record { addr = Bool.false; ro = Bool.false }) h q).1
            (fresh w))))
