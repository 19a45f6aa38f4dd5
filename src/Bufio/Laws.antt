-- ===== src/Bufio/Laws.antt =====
-- A `bufio.Writer` keeps the contract of an `io.Writer` if the writer behind it does, where what it
-- holds back counts as taken; `Flush` lets go of that.
use xdr.Prelude.{
  ℕ, zero, suc, ◌≡◌, refl, sym, ap, ◌∙◌, subst, inl, inr, Bool-cases, Bool, true, false, ◌&&◌,
  Option, none, some, List, [], ◌∷◌, ◌++◌, append_assoc, append-nil, leb, length, take, drop,
  take-append-drop,
}
use mathlib.Core.Option.{some-injective}
use xdr.Errors.{Err}
use xdr.Io.{done, failed, returning}
use xdr.Encoder.Emits.{EmitsAt, WriterLaws, then_write-EmitsAt}
use xdr.Bufio.{
  Taken, took_all, cut, CountedWriter, Bufio, is_empty, room, keep, unless_stuck, after, flushed,
  flush_buffer, flush, passed, fill, put_rounds, put_all, bufio_writer,
}

-- What the documentation of `io.Writer` promises, with the number of bytes taken.
abbrev pub TakesAt : {W E : Type 0} → (W → List ℕ) → List ℕ → W → Taken W E → Type 0
TakesAt content bs w (took_all w') = content w' ≡ content w ++ bs
TakesAt content bs w (cut n e w') = content w' ≡ content w ++ take n bs

pub record CountedLaws (W E : Type 0) ⦃counted : CountedWriter W E⦄ : Type 0 where
  pub content : W → List ℕ
  pub take_law : (bs : List ℕ) (w : W) → TakesAt content bs w (counted.write bs w)

module _ {W E : Type 0} ⦃counted : CountedWriter W E⦄ (laws : CountedLaws W E) where
  open laws use {content, take_law}

  -- What the writer behind has taken, and what is held back.
  abbrev pub held : Bufio W E → List ℕ
  held b = content b.wr ++ b.buf

  -- What the writer behind had before is still there, in front of what it has taken since.
  abbrev pub Grown : Bufio W E → Bufio W E → Type 0
  Grown b c = (passed : List ℕ) × (content c.wr ≡ content b.wr ++ passed)

  pub Grown-refl : (b : Bufio W E) → Grown b b
  Grown-refl b = ([], sym (append-nil (content b.wr)))

  pub Grown-trans : (a b c : Bufio W E) → Grown a b → Grown b c → Grown a c
  Grown-trans a b c (p, h) (q, k) =
      (p ++ q, k ∙ ap (λ z. z ++ q) h ∙ append_assoc (content a.wr) p q)

  abbrev pub Adds : List ℕ → Bufio W E → Option Err × Bufio W E → Type 0
  Adds bs b r = EmitsAt E held Grown bs b (returning r)

  unless_stuck-Adds :
      (o : Option E) (bs : List ℕ) (b : Bufio W E) (f : Bufio W E → Option Err × Bufio W E)
      → Adds bs b (f b)
      → Adds bs b (unless_stuck o b f)
  unless_stuck-Adds none bs b f h = h
  unless_stuck-Adds (some e) bs b f h = (e, [], bs, refl, sym (append-nil (held b)), Grown-refl b)

  after-Adds :
      (bs cs : List ℕ) (b : Bufio W E) (r : Option Err × Bufio W E)
      (f : Bufio W E → Option Err × Bufio W E)
      → Adds bs b r
      → ((c : Bufio W E) → Adds cs c (f c))
      → Adds (bs ++ cs) b (after r f)
  after-Adds bs cs b (none, c) f h k =
      then_write-EmitsAt E held Grown Grown-trans (λ c. returning (f c)) bs cs b (done c) h k
  after-Adds bs cs b (some e, c) f h k =
      then_write-EmitsAt E held Grown Grown-trans (λ c. returning (f c)) bs cs b (failed e c) h k

  keep-Adds : (p : List ℕ) (b : Bufio W E) → Adds p b (none, keep p b)
  keep-Adds p b = (sym (append_assoc (content b.wr) b.buf p), Grown-refl b)

  nothing_held : (bs : List ℕ) → is_empty bs ≡ true → bs ≡ []
  nothing_held [] e = refl
  nothing_held (x ∷ bs) e = cc

  cut-held :
      (b : Bufio W E) (n : ℕ) (w : W)
      → content w ≡ content b.wr ++ take n b.buf
      → content w ++ drop n b.buf ≡ held b
  cut-held b n w h =
      ap (λ z. z ++ drop n b.buf) h
      ∙ append_assoc (content b.wr) (take n b.buf) (drop n b.buf)
      ∙ ap (λ z. content b.wr ++ z) (take-append-drop n b.buf)

  flushed-Adds :
      (b : Bufio W E) (r : Taken W E) → TakesAt content b.buf b.wr r → Adds [] b (flushed b r)
  flushed-Adds b (took_all w) h = (ap (λ z. z ++ []) h, (b.buf, h))
  flushed-Adds b (cut n e w) h =
      (e, [], [], refl, cut-held b n w h ∙ sym (append-nil (held b)), (take n b.buf, h))

  flush_buffer-Adds : (b : Bufio W E) → Adds [] b (flush_buffer b)
  flush_buffer-Adds b = elim (Bool-cases (is_empty b.buf)) [
    | inl e ↦ rw e (sym (append-nil (held b)), Grown-refl b)
    | inr e ↦ rw e (flushed-Adds b (counted.write b.buf b.wr) (take_law b.buf b.wr))
  ]

  passed-held :
      (p : List ℕ) (b : Bufio W E) (w : W)
      → is_empty b.buf ≡ true
      → content w ≡ content b.wr ++ p
      → content w ++ b.buf ≡ held b ++ p
  passed-held p b w e h =
      let q = nothing_held b.buf e in
      ap (λ z. content w ++ z) q
      ∙ append-nil (content w)
      ∙ h
      ∙ ap (λ z. z ++ p) (sym (append-nil (content b.wr)) ∙ ap (λ z. content b.wr ++ z) (sym q))

  passed-Adds :
      (p : List ℕ) (b : Bufio W E) (r : Taken W E)
      → is_empty b.buf ≡ true
      → TakesAt content p b.wr r
      → Adds p b (passed b r)
  passed-Adds p b (took_all w) e h = (passed-held p b w e h, (p, h))
  passed-Adds p b (cut n x w) e h =
      (x, take n p, drop n p, take-append-drop n p, passed-held (take n p) b w e h, (take n p, h))

  fill-Adds : (p : List ℕ) (b : Bufio W E) → Adds (take (room b) p) b (fill p b)
  fill-Adds p b =
      subst (λ z. Adds z b (fill p b)) (append-nil (take (room b) p))
        (after-Adds (take (room b) p) [] b (none, keep (take (room b) p) b) flush_buffer
          (keep-Adds (take (room b) p) b) flush_buffer-Adds)

  empty_held :
      (may_pass : Bool) (bs : List ℕ) → (may_pass && is_empty bs) ≡ true → is_empty bs ≡ true
  empty_held true bs e = e
  empty_held false bs e = cc

  put_rounds-Adds :
      (may_pass : Bool) (fuel : ℕ) (p : List ℕ) (b : Bufio W E)
      → Adds p b (put_rounds may_pass fuel p b)
  unfolding put_rounds
  put_rounds-Adds may_pass zero p b = keep-Adds p b
  put_rounds-Adds may_pass (suc fuel) p b = elim (Bool-cases (leb (length p) (room b))) [
    | inl e ↦ rw e (keep-Adds p b)
    | inr e ↦ rw e (elim (Bool-cases (may_pass && is_empty b.buf)) [
      | inl q ↦
          rw q
            (passed-Adds p b (counted.write p b.wr) (empty_held may_pass b.buf q) (take_law p b.wr))
      | inr q ↦ rw q (
          subst (λ z. Adds z b (after (fill p b) (put_rounds may_pass fuel (drop (room b) p))))
            (take-append-drop (room b) p)
            (after-Adds (take (room b) p) (drop (room b) p) b (fill p b)
              (put_rounds may_pass fuel (drop (room b) p)) (fill-Adds p b)
              (put_rounds-Adds may_pass fuel (drop (room b) p))))
    ])
  ]

  pub put_all-Adds :
      (may_pass : Bool) (p : List ℕ) (b : Bufio W E) → Adds p b (put_all may_pass p b)
  unfolding put_all
  put_all-Adds may_pass p b =
      unless_stuck-Adds b.err p b (put_rounds may_pass (suc (length p)) p)
        (put_rounds-Adds may_pass (suc (length p)) p b)

  pub put_string_law :
      (ws : List ℕ → Bufio W E → Option Err × Bufio W E)
      → ◌≡◌ {A = Option (List ℕ → Bufio W E → Option Err × Bufio W E)}
          (some (put_all false))
          (some ws)
      → (s : List ℕ) (b : Bufio W E) → Adds s b (ws s b)
  put_string_law ws e s b =
      subst (λ f. Adds s b (f s b)) (some-injective _ _ e) (put_all-Adds false s b)

  abbrev pub bufio_laws : WriterLaws (Bufio W E) E
  bufio_laws = record {
    content = held;
    Later = Grown;
    later_refl = Grown-refl;
    later_trans = Grown-trans;
    write_law = put_all-Adds true;
    write_string_law = put_string_law;
  }

  -- After `Flush` without an error, the writer behind has taken everything; after one with an error,
  -- a front part of it.
  abbrev pub Passes : Bufio W E → Option Err × Bufio W E → Type 0
  Passes b (none, c) = content c.wr ≡ held b
  Passes b (some e, c) = E × (held c ≡ held b) × Grown b c

  flushed-Passes :
      (b : Bufio W E) (r : Taken W E) → TakesAt content b.buf b.wr r → Passes b (flushed b r)
  flushed-Passes b (took_all w) h = h
  flushed-Passes b (cut n e w) h = (e, cut-held b n w h, (take n b.buf, h))

  flush_buffer-Passes : (b : Bufio W E) → Passes b (flush_buffer b)
  flush_buffer-Passes b = elim (Bool-cases (is_empty b.buf)) [
    | inl e ↦
        rw e (
          sym (append-nil (content b.wr))
          ∙ ap (λ z. content b.wr ++ z) (sym (nothing_held b.buf e)))
    | inr e ↦ rw e (flushed-Passes b (counted.write b.buf b.wr) (take_law b.buf b.wr))
  ]

  unless_stuck-Passes : (o : Option E) (b : Bufio W E) → Passes b (unless_stuck o b flush_buffer)
  unless_stuck-Passes none b = flush_buffer-Passes b
  unless_stuck-Passes (some e) b = (e, refl, Grown-refl b)

  pub flush-Passes : (b : Bufio W E) → Passes b (flush b)
  flush-Passes b = unless_stuck-Passes b.err b
