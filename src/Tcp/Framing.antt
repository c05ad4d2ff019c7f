-- ===== src/Tcp/Framing.antt =====
-- Frames behind their length prefixes: what the receiving end makes of the bytes.
use hushwire.Common.{
  ℕ, ◌+◌, ◌*◌, ◌/◌, ◌%◌, ◌^◌, ◌≤◌, List, [], ◌∷◌, ◌++◌, none, some, ◌≡◌, ◌⊎◌, inl, inr, refl, sym,
  ap, ◌∙◌, arith, ltb, ok, err, Bytes, IsBytes, length, take, drop, get_or, to_be_bytes,
  from_be_bytes, All, Bool-cases, length-append, length-to_be_bytes, take_at, drop_at, length-take,
  take-append-drop,
}
use mathlib.Core.List.{append_assoc}
use hushwire.Tcp.{IoError, invalid_data, u16_max, encode_frame, assemble}

abbrev pub IsShort : Bytes → Type 0
IsShort frame = length frame ≤ u16_max

-- The number of the prefix of a frame that is short.
prefix_value : (n : ℕ) → n ≤ u16_max → from_be_bytes (n / 256 % 256 ∷ n % 256 ∷ []) ≡ n
unfolding from_be_bytes
prefix_value n h = omega arith

pub encode_frame_bytes :
    (frame : Bytes)
    → IsShort frame
    → encode_frame frame ≡ length frame / 256 % 256 ∷ length frame % 256 ∷ frame
unfolding encode_frame to_be_bytes
encode_frame_bytes frame h = let e : length frame % 2 ^ 16 ≡ length frame = omega arith in rw e refl

-- A frame that is short comes back from its encoding, whatever bytes follow it.
pub assemble-encode_frame :
    (frame rest : Bytes)
    → IsShort frame
    → assemble (encode_frame frame ++ rest) ≡ (rest, ok (some frame))
unfolding assemble
assemble-encode_frame frame rest h = rw (encode_frame_bytes frame h) (
    ground (
      arith,
      prefix_value (length frame) h,
      length-append frame rest,
      take_at (length frame) frame rest refl,
      drop_at (length frame) frame rest refl,
    ))

-- A frame that is returned stood at the front of the buffer, behind its length.
pub encode_frame-assemble :
    (buffer rest frame : Bytes)
    → IsBytes buffer
    → assemble buffer ≡ (rest, ok (some frame))
    → (encode_frame frame ++ rest ≡ buffer) × IsShort frame
unfolding assemble from_be_bytes
encode_frame-assemble [] rest frame w h = absurd (ground arith)
encode_frame-assemble (a ∷ []) rest frame w h = absurd (ground arith)
encode_frame-assemble (a ∷ b ∷ bytes) rest frame w h =
    let n = a * 256 + b in
    let e : take n bytes ≡ frame = ground arith in
    let e' : drop n bytes ≡ rest = ground arith in
    let long : n ≤ length bytes = ground arith in
    let sized : length frame ≡ n = rw (sym e) (omega (arith, length-take n bytes)) in
    let short : IsShort frame = omega (arith, w.0, w.1.0) in
    let high : length frame / 256 % 256 ≡ a = omega (arith, w.0, w.1.0) in
    let low : length frame % 256 ≡ b = omega (arith, w.0, w.1.0) in
    (
      rw (encode_frame_bytes frame short, high, low, ← e, ← e')
          (ap (λ ys. a ∷ b ∷ ys) (take-append-drop n bytes)),
      short,
    )

unfoldable pub encode_all : List Bytes → Bytes
encode_all [] = []
encode_all (frame ∷ frames) = encode_frame frame ++ encode_all frames

pub encode_all-append :
    (xs ys : List Bytes) → encode_all (xs ++ ys) ≡ encode_all xs ++ encode_all ys
unfolding encode_all
encode_all-append [] ys = refl
encode_all-append (x ∷ xs) ys =
    ap (λ bytes. encode_frame x ++ bytes) (encode_all-append xs ys)
    ∙ sym (append_assoc (encode_frame x) (encode_all xs) (encode_all ys))

pub length-encode_frame : (frame : Bytes) → length (encode_frame frame) ≡ 2 + length frame
unfolding encode_frame
length-encode_frame frame = omega (
  arith,
  length-append (to_be_bytes 2 (length frame % 2 ^ 16)) frame,
  length-to_be_bytes 2 (length frame % 2 ^ 16),
)

-- Bytes that start with a frame start with no other frame.
encode_frame_unique :
    (x y xs ys : Bytes)
    → IsShort x
    → IsShort y
    → encode_frame x ++ xs ≡ encode_frame y ++ ys
    → (x ≡ y) × (xs ≡ ys)
encode_frame_unique x y xs ys h k e =
    let p = assemble-encode_frame x xs h in
    let q = assemble-encode_frame y ys k in
    let r : assemble (encode_frame x ++ xs) ≡ assemble (encode_frame y ++ ys) = ap assemble e in
    (ground arith, ground arith)

-- The frames before some point of a stream are the first of all its frames.
pub encode_all_prefix :
    (got sent : List Bytes) (tail : Bytes)
    → All IsShort got
    → All IsShort sent
    → encode_all got ++ tail ≡ encode_all sent
    → (rest : List Bytes) × (sent ≡ got ++ rest) × (tail ≡ encode_all rest)
unfolding encode_all
encode_all_prefix [] sent tail g s e = (sent, refl, e)
encode_all_prefix (x ∷ got) [] tail g s e = absurd (
    let l = ap length e in
    omega (
      arith,
      l,
      length-append (encode_frame x) (encode_all got),
      length-append (encode_frame x ++ encode_all got) tail,
      length-encode_frame x,
    ))
encode_all_prefix (x ∷ got) (y ∷ sent) tail g s e =
    let (same, later) =
      encode_frame_unique x y (encode_all got ++ tail) (encode_all sent) g.0 s.0
        (sym (append_assoc (encode_frame x) (encode_all got) tail) ∙ e) in
    let (rest, split, left) = encode_all_prefix got sent tail g.1 s.1 later in (rest, cc, left)

pub assemble_cases :
    (buffer : Bytes)
    → (assemble buffer ≡ (buffer, ok none))
      ⊎ ((e : IoError) × (assemble buffer ≡ (buffer, err e)))
      ⊎ ((rest frame : Bytes) × (assemble buffer ≡ (rest, ok (some frame))))
unfolding assemble
assemble_cases buffer =
    let n = from_be_bytes (get_or buffer 0 0 ∷ get_or buffer 1 0 ∷ []) in
    elim (Bool-cases (ltb (length buffer) 2)) [
      | inl e ↦ inl (rw (e, assemble) refl)
      | inr e ↦ elim (Bool-cases (ltb u16_max n)) [
        | inl f ↦ inr (inl (invalid_data, rw (e, assemble, f) refl))
        | inr f ↦ elim (Bool-cases (ltb (length buffer) (2 + n))) [
          | inl g ↦ inl (rw (e, assemble, f, g) refl)
          | inr g ↦
              inr (inr (drop (2 + n) buffer, take n (drop 2 buffer), rw (e, assemble, f, g) refl))
        ]
      ]
    ]
