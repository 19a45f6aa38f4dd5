-- ===== src/Encoder/Buffer.antt =====
-- The `bytes.Buffer` that `Marshal` writes to: it takes every write, as a string too.
use xdr.Prelude.{ℕ, ◌≡◌, refl, Option, none, some, List, ◌++◌, ◌∙◌, ap, subst}
use mathlib.Core.Option.{some-injective}
use xdr.Errors.{Err}
use xdr.Io.{Writer, Encode, done, returning}
use xdr.Encoder.Emits.{EmitsAt, WriterLaws, Emits, Emits-done}

abbrev pub Buffer : Type 0
Buffer = List ℕ

abbrev pub buffer_write : List ℕ → Buffer → Option Err × Buffer
buffer_write bs buf = (none, buf ++ bs)

instance abbrev pub buffer_writer : Writer Buffer
buffer_writer = record { write = buffer_write; write_string = some buffer_write }

pub write_string_lem :
    (ws : List ℕ → Buffer → Option Err × Buffer)
    → ◌≡◌ {A = Option (List ℕ → Buffer → Option Err × Buffer)} (some buffer_write) (some ws)
    → (s : List ℕ) (w : Buffer) → EmitsAt ⊥ (λ b. b) (λ b c. Unit) s w (returning (ws s w))
write_string_lem ws e s w =
    subst (λ f. EmitsAt ⊥ (λ b. b) (λ b c. Unit) s w (returning (f s w))) (some-injective _ _ e)
      (refl, tt)

abbrev pub buffer_laws : WriterLaws Buffer ⊥
buffer_laws = record {
  content = λ b. b;
  Later = λ b c. Unit;
  later_refl = λ b. tt;
  later_trans = λ a b c h k. tt;
  write_law = λ bs w. (refl, tt);
  write_string_law = write_string_lem;
}

-- What is emitted is appended.
pub Emits-buffer :
    (m : Encode Buffer) (bs : List ℕ) → Emits buffer_laws m bs → (b : Buffer) → m b ≡ done (b ++ bs)
Emits-buffer m bs h b = let (w', e, q) = Emits-done buffer_laws m bs (λ x. x) h b in e ∙ ap done q
