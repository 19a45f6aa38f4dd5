-- ===== src/Tags/Accessors.antt =====
-- internal/tags/tags.go: the accessors read the first entry of a tag, and `Append` adds one.
use xdr.Prelude.{
  ℕ, ◌+◌, ◌-◌, ◌*◌, ◌/◌, ◌%◌, ◌^◌, ◌≤◌, ◌<◌, ◌≡◌, ◌≢◌, ◌↔◌, ◌⊎◌, refl, sym, ◌∙◌, ap, none, some,
  List, [], ◌∷◌, ◌++◌, append_assoc, append-nil, bit_or, length, get_elem?, All, arith,
  length-append, drop-append, get_elem?-append, get_elem?-some, le→ltb, lt→ltb,
}
use xdr.Prelude.Bits.{bit_or-add}
use xdr.Encoder.Wire.{big_endian}
use xdr.Tags.{
  kind, val_at, this_len, next, only_value, value_range, value, values_from, values, Tag, append,
  prepend, four_bytes, all_bytes,
}
use xdr.Tags.Entries.{
  Entry, flag, single, multi, IsWord, IsEntry, words, entry_kind, entry_values, entry_bytes,
  tag_bytes,
}

word_value :
    (v : ℕ)
    → IsWord v
    → (bit_or
            (bit_or (v / 2 ^ 24 % 256 * 2 ^ 24) (v / 2 ^ 16 % 256 * 2 ^ 16))
            (v / 2 ^ 8 % 256 * 2 ^ 8)
          + v / 1 % 256)
        % 2 ^ 32
      ≡ v
word_value v h =
    let a : ℕ = v / 2 ^ 24 % 256 in
    let b : ℕ = v / 2 ^ 16 % 256 in
    let c : ℕ = v / 2 ^ 8 % 256 in
    ground (
      arith,
      bit_or-add 24 a (b * 2 ^ 16) (omega arith),
      bit_or-add 16 (a * 256 + b) (c * 2 ^ 8) (omega arith),
    )

pub val_at-big_endian :
    (front : List ℕ) (v : ℕ) (back : List ℕ)
    → IsWord v
    → val_at (front ++ (big_endian 4 v ++ back)) (length front) ≡ some v
unfolding val_at
val_at-big_endian front v back h =
    rw
      (
        get_elem?-append front (big_endian 4 v ++ back) 3,
        get_elem?-append front (big_endian 4 v ++ back) 1,
        get_elem?-append front (big_endian 4 v ++ back) 2,
        at_front,
      )
      (ap some (word_value v h))
  where
    at_front :
        get_elem? (front ++ (big_endian 4 v ++ back)) (length front) ≡ some (v / 2 ^ 24 % 256)
    at_front =
        ap (λ k. get_elem? (front ++ (big_endian 4 v ++ back)) k) {x = length front}
          {y = length front + 0} (omega arith)
        ∙ get_elem?-append front (big_endian 4 v ++ back) 0

length-words : (vs : List ℕ) → length (words vs) ≡ 4 * length vs
length-words [] = refl
length-words (v ∷ vs) = omega (arith, length-words vs)

pub this_len_lem :
    (e : Entry) (back : List ℕ)
    → IsEntry e
    → this_len (entry_bytes e ++ back) ≡ some (length (entry_bytes e))
unfolding this_len
this_len_lem (flag k) back h = ground arith
this_len_lem (single k v) back h = ground arith
this_len_lem (multi k vs) back h =
    ground (arith, length-words vs, val_at-big_endian (k ∷ []) (length vs) (words vs ++ back) h.2)

pub next_lem : (e : Entry) (back : List ℕ) → IsEntry e → next (entry_bytes e ++ back) ≡ some back
unfolding next
next_lem e back h =
    rw (this_len_lem e back h)
      (ground (arith, length-append (entry_bytes e) back, drop-append (entry_bytes e) back))

value_lem :
    (front : List ℕ) (v : ℕ) (back : List ℕ) (i : ℕ)
    → length front ≡ 1 + 4 * i
    → IsWord v
    → value (front ++ (big_endian 4 v ++ back)) i ≡ some v
unfolding value
value_lem front v back i e h =
    ap (λ k. val_at (front ++ (big_endian 4 v ++ back)) k) (sym e)
    ∙ val_at-big_endian front v back h

-- The loop over the values that are left, behind `front`.
values_from_lem :
    (t front vs back : List ℕ) (i : ℕ)
    → t ≡ front ++ (words vs ++ back)
    → length front ≡ 1 + 4 * i
    → All IsWord vs
    → values_from t i (length vs) ≡ some vs
unfolding values_from
values_from_lem t front [] back i p e h = refl
values_from_lem t front (v ∷ vs) back i p e h = rw (
  ap (λ s. value s i) p ∙ value_lem front v (words vs ++ back) i e h.0,
  values_from_lem t (front ++ big_endian 4 v) vs back (i + 1)
      (p ∙ sym (append_assoc front (big_endian 4 v) (words vs ++ back)))
      (length-append front (big_endian 4 v) ∙ omega arith) h.1,
)

pub values_lem :
    (e : Entry) (back : List ℕ) → IsEntry e → values (entry_bytes e ++ back) ≡ some (entry_values e)
unfolding values value_range
values_lem (flag k) back h = rw (lt→ltb k 0x80 h) (unfold values_from in refl)
values_lem (single k v) back h =
    rw (le→ltb k 0x80 h.0, lt→ltb k 0xC0 h.1)
      (values_from_lem _ (k ∷ []) (v ∷ []) back 0 refl refl (h.2, tt))
values_lem (multi k vs) back h =
    rw
      (
        le→ltb k 0x80 (omega arith),
        le→ltb k 0xC0 h.0,
        val_at-big_endian (k ∷ []) (length vs) (words vs ++ back) h.2,
      )
      (rw (last.1, count)
        (values_from_lem _ (k ∷ big_endian 4 (length vs)) vs back 1
          (ap (λ t. k ∷ t) (append_assoc (big_endian 4 (length vs)) (words vs) back)) refl h.3))
  where
    last : (a : ℕ) × (get_elem? (entry_bytes (multi k vs) ++ back) (4 * (1 + length vs)) ≡ some a)
    last =
        get_elem?-some (entry_bytes (multi k vs) ++ back) (4 * (1 + length vs))
          (omega (arith, length-words vs, length-append (words vs) back))

    count : 1 + length vs - 1 ≡ length vs
    count = omega arith

-- Each accessor reads the first entry of a tag, whatever follows it: its kind, the entries behind
-- it, and its values in order; `OnlyValue` reads the value of a single-valued one.
pub accessors_first_entry :
    (e : Entry) (es : List Entry)
    → IsEntry e
    → (kind (tag_bytes (e ∷ es)) ≡ entry_kind e)
      × (next (tag_bytes (e ∷ es)) ≡ some (tag_bytes es))
      × (values (tag_bytes (e ∷ es)) ≡ some (entry_values e))
      × ((k v : ℕ) → e ≡ single k v → only_value (tag_bytes (e ∷ es)) ≡ some v)
unfolding kind only_value
accessors_first_entry e es h =
    (kind_lem e, next_lem e (tag_bytes es) h, values_lem e (tag_bytes es) h, only e h)
  where
    kind_lem : (d : Entry) → kind (tag_bytes (d ∷ es)) ≡ entry_kind d
    kind_lem (flag k) = refl
    kind_lem (single k v) = refl
    kind_lem (multi k vs) = refl

    only :
        (d : Entry)
        → IsEntry d
        → (k v : ℕ) → d ≡ single k v
        → only_value (tag_bytes (d ∷ es)) ≡ some v
    only (flag j) hd k v p = cc
    only (single j w) hd k v p =
        let e : some w ≡ some v = cc in val_at-big_endian (j ∷ []) w (tag_bytes es) hd.2 ∙ e
    only (multi j ws) hd k v p = cc

four_bytes-big_endian : (v : ℕ) → four_bytes v ≡ big_endian 4 v
four_bytes-big_endian v = refl

all_bytes-words : (vs : List ℕ) → all_bytes vs ≡ words vs
all_bytes-words [] = refl
all_bytes-words (v ∷ vs) = ap (λ t. big_endian 4 v ++ t) (all_bytes-words vs)

pub tag_bytes-append : (es ds : List Entry) → tag_bytes (es ++ ds) ≡ tag_bytes es ++ tag_bytes ds
tag_bytes-append [] ds = refl
tag_bytes-append (e ∷ es) ds =
    rw (tag_bytes-append es ds, append_assoc (entry_bytes e) (tag_bytes es) (tag_bytes ds))

append_lem :
    (t : Tag) (e : Entry)
    → IsEntry e
    → append t (entry_kind e) (entry_values e) ≡ some (t ++ entry_bytes e)
unfolding append
append_lem t (flag k) h = rw (lt→ltb k 0x80 h)
append_lem t (single k v) h = rw (le→ltb k 0x80 h.0, lt→ltb k 0xC0 h.1)
append_lem t (multi k vs) h =
    rw (le→ltb k 0x80 (omega arith), le→ltb k 0xC0 h.0, count, all_bytes-words vs)
  where
    count : length vs % 2 ^ 32 ≡ length vs
    count = omega arith

-- `Append` of an entry's kind and values puts the entry behind those that are there, and `Prepend`
-- puts it before them.
pub append_entry :
    (es : List Entry) (e : Entry)
    → IsEntry e
    → (append (tag_bytes es) (entry_kind e) (entry_values e) ≡ some (tag_bytes (es ++ e ∷ [])))
      × (prepend (tag_bytes es) (entry_kind e) (entry_values e) ≡ some (tag_bytes (e ∷ es)))
unfolding prepend
append_entry es e h = (
  append_lem (tag_bytes es) e h
      ∙ ap some (
          ap (λ t. tag_bytes es ++ t) (sym (append-nil (entry_bytes e)))
          ∙ sym (tag_bytes-append es (e ∷ []))),
  rw (append_lem [] e h),
)

-- `Append` panics exactly when a flag is given values, or a single-valued kind not one value.
pub append_panics :
    (t : Tag) (k : ℕ) (vs : List ℕ)
    → (append t k vs ≡ none)
      ↔ ((k < 0x80) × (0 < length vs) ⊎ (0x80 ≤ k) × (k < 0xC0) × (length vs ≢ 1))
unfolding append
append_panics t k [] = (λ h. ground arith, λ h. ground arith)
append_panics t k (v ∷ []) = (λ h. ground arith, λ h. ground arith)
append_panics t k (v ∷ w ∷ vs) = (λ h. ground arith, λ h. ground arith)
