-- ===== src/OpaqueReader/Passing.antt =====
-- internal/coder/opaquereader.go, `WriteTo`: what is left of the body reaches the writer.
use xdr.Prelude.{
  ℕ, suc, zero, ◌++◌, ◌-◌, ◌≤◌, ◌<◌, ◌≡◌, refl, sym, subst, ◌∙◌, ap, Option, none, some, List, [],
  ◌∷◌, ltb, if◌then◌else◌, length, take, drop, arith, append_assoc, append-nil, take-append-drop,
  length-drop, length-take, All, take-append_le, drop-append_le,
}
use Prim.Native.Nat.{min}
use xdr.Errors.{IoError, Err}
use xdr.Io.{Writer, returning}
use xdr.Encoder.Emits.{EmitsAt, WriterLaws}
use xdr.OpaqueReader.{OpaqueReader, read}
use xdr.OpaqueReader.Sessions.{At}
use xdr.OpaqueReader.WriteTo.{
  Copied, copied, not_ended, written, passed_on, copy_loop, copy_size, write_to,
}

module _ (m want b : ℕ) (bs fill rest : List ℕ) (fault : IoError) where
  -- The number of bytes that one `Read` returns.
  abbrev taken : ℕ
  taken = min (suc m) (if ltb (suc (length bs)) (suc want) then suc (length bs) else suc want)

  abbrev input : OpaqueReader
  input = At (b ∷ bs) fill rest fault

  taken-fits : taken ≤ length (b ∷ bs)
  taken-fits = ground arith

  taken-positive : 0 < taken
  taken-positive = ground arith

  read-chunk : (read (suc m) (suc want) input).0 ≡ take taken (b ∷ bs)
  unfolding read
  read-chunk = ground (arith, take-append_le taken (b ∷ bs) (fill ++ rest) taken-fits)

  read-none : (read (suc m) (suc want) input).1 ≡ none
  unfolding read
  read-none = ground arith

  read-At : (read (suc m) (suc want) input).2 ≡ At (drop taken (b ∷ bs)) fill rest fault
  unfolding read
  read-At = ground (
    arith,
    take-append_le taken (b ∷ bs) (fill ++ rest) taken-fits,
    drop-append_le taken (b ∷ bs) (fill ++ rest) taken-fits,
    length-take taken (b ∷ bs),
    length-drop taken (b ∷ bs),
    taken-fits,
  )

module _ {W MayFail : Type 0} ⦃io : Writer W⦄ (laws : WriterLaws W MayFail) (fill rest : List ℕ)
    (fault : IoError) where
  open laws use {content, Later, write_law}

  -- Without an error, all of `left` has reached the writer and nothing of the body is left; with one,
  -- which the writer can have, a front part.
  abbrev pub Passes : List ℕ → W → Copied W → Type 0
  Passes left w (copied none o w') = (o ≡ At [] fill rest fault) × (content w' ≡ content w ++ left)
  Passes left w (copied (some e) o w') =
      MayFail
      × (front : List ℕ) × (back : List ℕ) × (front ++ back ≡ left)
      × (content w' ≡ content w ++ front)
  Passes left w not_ended = ⊥

  behind :
      (bs cs : List ℕ) (w w' : W) (r : Copied W)
      → content w' ≡ content w ++ bs
      → Passes cs w' r
      → Passes (bs ++ cs) w r
  behind bs cs w w' (copied none o v) h (p, q) =
      (p, q ∙ ap (λ z. z ++ cs) h ∙ append_assoc (content w) bs cs)
  behind bs cs w w' (copied (some e) o v) h (x, front, back, p, q) = (
    x,
    bs ++ front,
    back,
    append_assoc bs front back ∙ ap (λ z. bs ++ z) p,
    q ∙ ap (λ z. z ++ front) h ∙ append_assoc (content w) bs front,
  )
  behind bs cs w w' not_ended h p = p

  written-Passes :
      (bs cs : List ℕ) (w : W) (r : Option Err × W) (o : OpaqueReader)
      (again : OpaqueReader → W → Copied W)
      → EmitsAt MayFail content Later bs w (returning r)
      → ((v : W) → Passes cs v (again o v))
      → Passes (bs ++ cs) w (written r none o again)
  written-Passes bs cs w (none, v) o again h k = behind bs cs w v (again o v) h.0 (k v)
  written-Passes bs cs w (some e, v) o again (x, front, back, p, q, l) k =
      (x, front, back ++ cs, sym (append_assoc front back cs) ∙ ap (λ z. z ++ cs) p, q)

  passed_on-Passes :
      (bs cs : List ℕ) (w : W) (o : OpaqueReader) (again : OpaqueReader → W → Copied W)
      → 0 < length bs
      → ((v : W) → Passes cs v (again o v))
      → Passes (bs ++ cs) w (passed_on (bs, none, o) w again)
  passed_on-Passes [] cs w o again h k = absurd (omega arith)
  passed_on-Passes (b ∷ bs) cs w o again h k =
      written-Passes (b ∷ bs) cs w (io.write (b ∷ bs) w) o again (write_law (b ∷ bs) w) k

  passed_on_same :
      (r : List ℕ × Option Err × OpaqueReader) (bs : List ℕ) (e : Option Err) (o : OpaqueReader)
      (w : W) (again : OpaqueReader → W → Copied W)
      → r.0 ≡ bs
      → r.1 ≡ e
      → r.2 ≡ o
      → passed_on (bs, e, o) w again ≡ passed_on r w again
  passed_on_same r bs e o w again p q s =
      ap (λ z. passed_on (z, e, o) w again) (sym p)
      ∙ ap (λ z. passed_on (r.0, z, o) w again) (sym q)
      ∙ ap (λ z. passed_on (r.0, r.1, z) w again) (sym s)

  after_one_read :
      (want m : ℕ) (mosts : List ℕ) (b : ℕ) (bs : List ℕ) (w : W)
      → ((v : W)
          → Passes (drop (taken m want b bs fill rest fault) (b ∷ bs)) v (
              copy_loop
                (suc want)
                mosts
                (At (drop (taken m want b bs fill rest fault) (b ∷ bs)) fill rest fault)
                v))
      → Passes (b ∷ bs) w (copy_loop (suc want) (suc m ∷ mosts) (At (b ∷ bs) fill rest fault) w)
  unfolding copy_loop
  after_one_read want m mosts b bs w ih =
      subst (Passes (b ∷ bs) w)
        (passed_on_same (read (suc m) (suc want) (At (b ∷ bs) fill rest fault)) (take k (b ∷ bs))
          none left w again (read-chunk m want b bs fill rest fault)
          (read-none m want b bs fill rest fault) (read-At m want b bs fill rest fault))
        (subst (λ z. Passes z w (passed_on (take k (b ∷ bs), none, left) w again))
          (take-append-drop k (b ∷ bs))
          (passed_on-Passes (take k (b ∷ bs)) (drop k (b ∷ bs)) w left again
            (omega (
              arith,
              length-take k (b ∷ bs),
              taken-fits m want b bs fill rest fault,
              taken-positive m want b bs fill rest fault,
            ))
            ih))
    where
      k : ℕ
      k = taken m want b bs fill rest fault

      left : OpaqueReader
      left = At (drop k (b ∷ bs)) fill rest fault

      again : OpaqueReader → W → Copied W
      again = copy_loop (suc want) mosts

  copy_loop-Passes :
      (want : ℕ) (mosts left : List ℕ) (w : W)
      → length left < length mosts
      → All (λ m. 0 < m) mosts
      → Passes left w (copy_loop (suc want) mosts (At left fill rest fault) w)
  copy_loop-Passes want [] left w h a = absurd (omega arith)
  copy_loop-Passes want (zero ∷ mosts) left w h a = absurd (omega (arith, a.0))
  copy_loop-Passes want (suc m ∷ mosts) [] w h a =
      unfold copy_loop read in (refl, sym (append-nil (content w)))
  copy_loop-Passes want (suc m ∷ mosts) (b ∷ bs) w h a = after_one_read want m mosts b bs w (λ v.
      copy_loop-Passes want mosts (drop (taken m want b bs fill rest fault) (b ∷ bs)) v
        (omega (
          arith,
          length-drop (taken m want b bs fill rest fault) (b ∷ bs),
          taken-positive m want b bs fill rest fault,
        ))
        a.1)

  copy_size-suc : (n : ℕ) → (m : ℕ) × (copy_size n ≡ suc m)
  copy_size-suc n = (copy_size n - 1, ground arith)

  -- `WriteTo` of an opaque reader with `left` of its body to come, where each read of the source
  -- returns a byte at least: it ends, without an error exactly `left` has reached the writer and the
  -- reader is at the padding, and with an error, which only a writer that has errors can cause, a
  -- front part of `left`.
  pub write_to-Passes :
      (mosts left : List ℕ) (w : W)
      → length left < length mosts
      → All (λ m. 0 < m) mosts
      → Passes left w (write_to mosts (At left fill rest fault) w)
  unfolding write_to
  write_to-Passes mosts left w h a =
      let (m, e) = copy_size-suc (length left) in
      subst (λ z. Passes left w (copy_loop z mosts (At left fill rest fault) w)) (sym e)
        (copy_loop-Passes m mosts left w h a)
