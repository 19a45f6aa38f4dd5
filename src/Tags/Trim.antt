-- ===== src/Tags/Trim.antt =====
-- internal/tags/tags.go: `Trimmed`, and the bytes of a tag as a map key.
use xdr.Prelude.{
  ℕ, zero, suc, ◌+◌, ◌≤◌, ◌≡◌, refl, ◌∙◌, ap, some, List, [], ◌∷◌, ◌++◌, ◌==◌, if◌then◌else◌,
  length, take, All, arith, length-append, take-append,
}
use xdr.Tags.{trimmed, trim_loop, noop, Tag}
use xdr.Tags.Entries.{Entry, flag, single, multi, IsEntry, entry_kind, entry_bytes, tag_bytes}
use xdr.Tags.Accessors.{this_len_lem, next_lem, tag_bytes-append}

-- The entry in front of trimmed ones is dropped if it is a `Noop` and they are none.
abbrev pub put_before : Entry → List Entry → List Entry
put_before (flag zero) [] = []
put_before e es = e ∷ es

-- The entries without the `Noop`s at the end.
abbrev pub trim : List Entry → List Entry
trim [] = []
trim (e ∷ es) = put_before e (trim es)

abbrev marked : List Entry → ℕ → ℕ → ℕ
marked [] s mark = mark
marked (e ∷ es) s mark = s + length (tag_bytes (e ∷ es))

trim_loop_step :
    (f : ℕ) (e : Entry) (back : Tag) (s mark : ℕ)
    → IsEntry e
    → trim_loop (suc f) (entry_bytes e ++ back) s mark
      ≡ trim_loop f back
          (s + length (entry_bytes e))
          (if entry_kind e == noop then mark else s + length (entry_bytes e))
unfolding trim_loop
trim_loop_step f (flag k) back s mark h =
    rw (this_len_lem (flag k) back h, next_lem (flag k) back h)
trim_loop_step f (single k v) back s mark h =
    rw (this_len_lem (single k v) back h, next_lem (single k v) back h)
trim_loop_step f (multi k vs) back s mark h =
    rw (this_len_lem (multi k vs) back h, next_lem (multi k vs) back h)

marked_step :
    (e : Entry) (ds : List Entry) (s mark : ℕ)
    → IsEntry e
    → marked ds
        (s + length (entry_bytes e))
        (if entry_kind e == noop then mark else s + length (entry_bytes e))
      ≡ marked (put_before e ds) s mark
marked_step (flag zero) [] s mark h = refl
marked_step (flag zero) (d ∷ ds) s mark h =
    ground (arith, length-append (entry_bytes d) (tag_bytes ds))
marked_step (flag (suc k)) [] s mark h = ground arith
marked_step (flag (suc k)) (d ∷ ds) s mark h = ground arith
marked_step (single k v) [] s mark h = ground arith
marked_step (single k v) (d ∷ ds) s mark h = ground arith
marked_step (multi k vs) [] s mark h = ground (arith, length-append (entry_bytes (multi k vs)) [])
marked_step (multi k vs) (d ∷ ds) s mark h =
    ground (arith, length-append (entry_bytes (multi k vs)) (tag_bytes (d ∷ ds)))

trim_loop_lem :
    (f : ℕ) (es : List Entry) (s mark : ℕ)
    → All IsEntry es
    → length es ≤ f
    → trim_loop f (tag_bytes es) s mark ≡ some (marked (trim es) s mark)
trim_loop_lem f [] s mark h hf = unfold trim_loop in refl
trim_loop_lem zero (e ∷ es) s mark h hf = absurd (omega arith)
trim_loop_lem (suc f) (e ∷ es) s mark h hf =
    trim_loop_step f e (tag_bytes es) s mark h.0
    ∙ trim_loop_lem f es _ _ h.1 (omega arith)
    ∙ ap some (marked_step e (trim es) s mark h.0)

trim-IsPrefix : (es : List Entry) → (noops : List Entry) × (es ≡ trim es ++ noops)
trim-IsPrefix [] = ([], refl)
trim-IsPrefix (e ∷ es) =
    let (noops, p) = trim-IsPrefix es in extend e (trim es) noops (ap (λ t. e ∷ t) p)
  where
    extend :
        (d : Entry) (ds noops : List Entry)
        → d ∷ es ≡ d ∷ (ds ++ noops)
        → (more : List Entry) × (d ∷ es ≡ put_before d ds ++ more)
    extend (flag zero) [] noops p = (flag zero ∷ noops, p)
    extend (flag zero) (b ∷ bs) noops p = (noops, p)
    extend (flag (suc k)) ds noops p = (noops, p)
    extend (single k v) ds noops p = (noops, p)
    extend (multi k vs) ds noops p = (noops, p)

pub length-le-tag_bytes : (es : List Entry) → length es ≤ length (tag_bytes es)
length-le-tag_bytes [] = omega arith
length-le-tag_bytes (flag k ∷ es) = omega (arith, length-le-tag_bytes es)
length-le-tag_bytes (single k v ∷ es) = omega (arith, length-le-tag_bytes es)
length-le-tag_bytes (multi k vs ∷ es) =
    omega (arith, length-le-tag_bytes es, length-append (entry_bytes (multi k vs)) (tag_bytes es))

marked-start : (es : List Entry) → marked es 0 0 ≡ length (tag_bytes es)
marked-start [] = refl
marked-start (e ∷ es) = omega arith

take-trim :
    (es : List Entry) → take (length (tag_bytes (trim es))) (tag_bytes es) ≡ tag_bytes (trim es)
take-trim es =
    let (noops, p) = trim-IsPrefix es in
    ap (λ t. take (length (tag_bytes (trim es))) t)
      (ap tag_bytes p ∙ tag_bytes-append (trim es) noops)
    ∙ take-append (tag_bytes (trim es)) (tag_bytes noops)

-- `Trimmed` never panics on a tag made of entries, its loop ends within the tag's length, and it
-- returns the tag without the `Noop`s at its end.
pub trimmed_lem :
    (es : List Entry) → All IsEntry es → trimmed (tag_bytes es) ≡ some (tag_bytes (trim es))
unfolding trimmed
trimmed_lem es h = rw (
  trim_loop_lem (length (tag_bytes es)) es 0 0 h (length-le-tag_bytes es),
  marked-start (trim es),
  take-trim es,
)
